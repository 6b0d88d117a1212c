-- ===== src/Rest/Capacity.antt =====
-- How many messages webhooksdirect.go has in flight.
use zeroxyz.Prelude.{
  ℕ, ◌+◌, ◌≤◌, String, List, [], ◌∷◌, false, ◌≡◌, inl, inr, arith, string_key, length, Bool-cases,
}
use zeroxyz.Prelude.Int.{ℤ, pos, negsuc, leb_ℤ}
use zeroxyz.Prelude.Maps.{length-put-le, length-delete-le}
use zeroxyz.Auth.{Result, Result-cases}
use zeroxyz.Kafka.Sort.{CommonHeaders}
use zeroxyz.Rest.Json.{Fields}
use zeroxyz.Rest.Direct.{MsgContext, WebhooksDirect, send_webhook_msg, reply_to}

-- One call on the webhooks, in the order in which they take the lock.
pub data Call : Type 0 where
  sends : Result CommonHeaders → String → String → Fields → Call
  replies : MsgContext → Call

unfoldable pub serve : List Call → WebhooksDirect → WebhooksDirect
serve [] w = w
serve (sends decoded key id msg ∷ calls) w = serve calls (send_webhook_msg decoded key id msg w).1
serve (replies ctx ∷ calls) w = serve calls (reply_to ctx w)

-- No more messages are in flight than the configuration allows.
pub record IsWithin (max : ℕ) (w : WebhooksDirect) : Type 0 where
  pub limit : w.conf.max_in_flight ≡ pos max
  pub within : length w.in_flight ≤ max

not_full : (max n : ℕ) (limit : ℤ) → limit ≡ pos max → leb_ℤ limit (pos n) ≡ false → n + 1 ≤ max
not_full max n (pos m) q h = ground (arith, q, h)
not_full max n (negsuc m) q h = absurd (cc)

send_webhook_msg-IsWithin :
    (max : ℕ) (decoded : Result CommonHeaders) (key id : String) (msg : Fields) (w : WebhooksDirect)
    → IsWithin max w
    → IsWithin max (send_webhook_msg decoded key id msg w).1
unfolding send_webhook_msg
send_webhook_msg-IsWithin max decoded key id msg w v =
    elim (Bool-cases (leb_ℤ w.conf.max_in_flight (pos (length w.in_flight)))) [
      | inl full ↦ simp full v
      | inr room ↦ simp room (elim (Result-cases decoded) [
        | inl (e, q) ↦ simp (q, send_webhook_msg) v
        | inr (h, q) ↦
            simp (q, send_webhook_msg)
              (record {
                limit = v.limit;
                within = omega (
                  arith,
                  length-put-le id _ w.in_flight,
                  not_full max (length w.in_flight) w.conf.max_in_flight v.limit room,
                );
              })
      ])
    ]

-- While the messages in flight are within the configured maximum, they stay within it, whatever is
-- sent and replied to in whatever order.
pub serve-IsWithin :
    (max : ℕ) (calls : List Call) (w : WebhooksDirect)
    → IsWithin max w
    → IsWithin max (serve calls w)
unfolding serve reply_to
serve-IsWithin max [] w v = v
serve-IsWithin max (sends decoded key id msg ∷ calls) w v =
    serve-IsWithin max calls _ (send_webhook_msg-IsWithin max decoded key id msg w v)
serve-IsWithin max (replies ctx ∷ calls) w v = serve-IsWithin max calls _ (record {
  limit = v.limit;
  within = omega (arith, length-delete-le ctx.msg_id w.in_flight, v.within);
})
