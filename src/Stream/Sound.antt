-- ===== src/Stream/Sound.antt =====
-- The specifications that newEventStream and update of eventstream.go leave.
use zeroxyz.Prelude.{
  ℕ, ◌<◌, ◌≤◌, String, Option, none, some, false, ◌≡◌, refl, subst, ◌⊎◌, inl, inr, arith, ◌==◌,
  string_key, Bool-cases, Option-cases,
}
use zeroxyz.Auth.{ok, Result-cases}
use zeroxyz.Stream.Spec.{
  WebhookAction, StreamInfo, Texts, strategy, check_webhook, new_event_stream, update_fields,
  update_spec, default_if_zero, bounded_batch_size, max_batch_size,
}

-- A specification that a stream can run with.
pub record IsSound (spec : StreamInfo) : Type 0 where
  pub some_batch : 0 < spec.batch_size
  pub batch_bound : spec.batch_size ≤ max_batch_size
  pub some_timeout : 0 < spec.batch_timeout_ms
  pub some_delay : 0 < spec.blocked_retry_delay_sec
  pub known_strategy : (spec.error_handling ≡ "block") ⊎ (spec.error_handling ≡ "skip")
  pub target :
      (w : WebhookAction) × (spec.webhook ≡ some w)
      × ((w.url == "") ≡ false)
      × (0 < w.request_timeout_sec)

strategy-cases :
    (texts : Texts) (s : String) → (strategy texts s ≡ "block") ⊎ (strategy texts s ≡ "skip")
strategy-cases texts s = elim (Bool-cases (texts.to_lower s == "block")) [
  | inl e ↦ inl (simp e refl)
  | inr e ↦ inr (simp e refl)
]

default_pos : (n d : ℕ) → 0 < d → 0 < default_if_zero n d
default_pos n d h = ground (arith, h)

batch_pos : (n : ℕ) → 0 < bounded_batch_size n
batch_pos n = ground arith

batch_le : (n : ℕ) → bounded_batch_size n ≤ max_batch_size
batch_le n = ground arith

ok_inj : {A : Type 0} {a b : A} → ok a ≡ ok b → a ≡ b
ok_inj h = ground (arith, h)

abbrev IsTarget : WebhookAction → Type 0
IsTarget w = ((w.url == "") ≡ false) × (0 < w.request_timeout_sec)

check_webhook-IsTarget :
    (texts : Texts) (w : Option WebhookAction) (w' : WebhookAction)
    → check_webhook texts w ≡ ok w'
    → IsTarget w'
unfolding check_webhook
check_webhook-IsTarget texts none w' = λ h. absurd (cc (h))
check_webhook-IsTarget texts (some w) w' = elim (Bool-cases (w.url == "")) [
  | inl e ↦ simp e (λ h. absurd (cc (h)))
  | inr e ↦ simp e (elim (Bool-cases (texts.url_parses w.url)) [
    | inl e' ↦ simp e' (λ h.
        let same : record w { request_timeout_sec = default_if_zero w.request_timeout_sec 30000 }
            ≡ w' =
          ground (arith, h) in
        subst IsTarget same (e, default_pos w.request_timeout_sec 30000 (omega arith)))
    | inr e' ↦ simp e' (λ h. absurd (cc (h)))
  ])
]

-- A stream starts with a sound specification, whatever it is given.
pub new_event_stream-IsSound :
    (texts : Texts) (given : Option StreamInfo) (spec : StreamInfo)
    → new_event_stream texts given ≡ ok spec
    → IsSound spec
unfolding new_event_stream
new_event_stream-IsSound texts none spec = λ h. absurd (cc (h))
new_event_stream-IsSound texts (some s) spec = elim (Bool-cases (s.id == "")) [
  | inl e ↦ simp e (λ h. absurd (cc (h)))
  | inr e ↦ simp e (elim (Bool-cases (texts.to_lower s.action_type == "webhook")) [
    | inr e' ↦ simp e' (λ h. absurd (cc (h)))
    | inl e' ↦ simp e' (elim (Result-cases (check_webhook texts s.webhook)) [
      | inl (e'', q) ↦ rw (q, new_event_stream) (λ h. absurd (cc (h)))
      | inr (w, q) ↦
          rw (q, new_event_stream)
            (λ h.
              let target = check_webhook-IsTarget texts s.webhook w q in
              subst IsSound (ok_inj h) (record {
                some_batch = batch_pos s.batch_size;
                batch_bound = batch_le s.batch_size;
                some_timeout = default_pos s.batch_timeout_ms 5000 (omega arith);
                some_delay = default_pos s.blocked_retry_delay_sec 30 (omega arith);
                known_strategy = strategy-cases texts s.error_handling;
                target = (w, refl, target.0, target.1);
              }))
    ])
  ])
]

update_fields-IsSound :
    (texts : Texts) (spec new : StreamInfo) → IsSound spec → IsSound (update_fields texts spec new)
unfolding update_fields
update_fields-IsSound texts spec new v = record {
  some_batch = ground (arith, v.some_batch);
  batch_bound = ground (arith, v.batch_bound);
  some_timeout = ground (arith, v.some_timeout);
  some_delay = ground (arith, v.some_delay);
  known_strategy = strategy-cases texts new.error_handling;
  target = v.target;
}

with_webhook :
    (spec : StreamInfo) (w : WebhookAction)
    → IsSound spec
    → IsTarget w
    → IsSound (record spec { webhook = some w })
with_webhook spec w v target = record {
  some_batch = v.some_batch;
  batch_bound = v.batch_bound;
  some_timeout = v.some_timeout;
  some_delay = v.some_delay;
  known_strategy = v.known_strategy;
  target = (w, refl, target.0, target.1);
}

-- An update of a sound specification leaves a sound one, also when it fails.
pub update_spec-IsSound :
    (texts : Texts) (spec new : StreamInfo) → IsSound spec → IsSound (update_spec texts spec new).0
unfolding update_spec
update_spec-IsSound texts spec new v =
    let fields = update_fields-IsSound texts spec new v in
    elim (Option-cases new.webhook) [
      | inl e ↦ simp (e, update_spec) fields
      | inr (w, e) ↦
          simp (e, update_spec)
            (elim (Result-cases (check_webhook texts (some w))) [
              | inl (e', q) ↦ simp (q, update_spec) fields
              | inr (w', q) ↦
                  simp (q, update_spec)
                    (with_webhook (update_fields texts spec new) w' fields
                      (check_webhook-IsTarget texts (some w) w' q))
            ])
    ]
