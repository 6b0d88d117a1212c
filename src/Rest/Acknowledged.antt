-- ===== src/Rest/Acknowledged.antt =====
-- What a request that waits in webhookskafka.go learns of its delivery.
use zeroxyz.Prelude.{String, List, Option, none, some, true, ◌≡◌, refl, ap, inl, inr, string_key}
use zeroxyz.Prelude.Maps.{lookup, delete, lookup-put, lookup-delete}
use zeroxyz.Auth.{Result, Result-cases}
use zeroxyz.Rest.Json.{Fields}
use zeroxyz.Rest.Posting.{
  ProducerMessage, ProducerError, Report, failed, delivered, WebhooksKafka, set_msg_pending,
  wait_for_send, producer_loops, start_send, answer_of, finish_send,
}
use zeroxyz.Rest.Traces.{
  Trace, trace, no_trace, waiting, outcome, same_id, first_report, trace-first_report,
}

-- A send that waits has marked its id and nothing else.
trace-start_send :
    (marshal : Fields → Result String) (token key id : String) (msg : Fields) (w : WebhooksKafka)
    → trace id w ≡ no_trace
    → (start_send marshal token key id msg true w).0 ≡ none
    → trace id (start_send marshal token key id msg true w).1 ≡ waiting true
unfolding start_send set_msg_pending
trace-start_send marshal token key id msg w h = elim (Result-cases (marshal msg)) [
  | inl (e, q) ↦ simp (q, start_send) (λ k. absurd (cc (k)))
  | inr (payload, q) ↦
      let f : lookup id w.failed_msgs ≡ none = ap (λ (t : Trace). t.failure) h in
      let s : lookup id w.success_msgs ≡ none = ap (λ (t : Trace). t.success) h in
      simp (q, f, s, same_id id id refl, start_send, lookup-put) (λ k. refl)
]

wait_for_send_failed :
    (id : String) (e : ProducerError) (w : WebhooksKafka)
    → lookup id w.failed_msgs ≡ some e
    → wait_for_send id w ≡ (some (failed e), record w { failed_msgs = delete id w.failed_msgs })
unfolding wait_for_send
wait_for_send_failed id e w h = simp (h, wait_for_send) refl

wait_for_send_delivered :
    (id : String) (m : ProducerMessage) (w : WebhooksKafka)
    → lookup id w.failed_msgs ≡ none
    → lookup id w.success_msgs ≡ some m
    → wait_for_send id w
      ≡ (some (delivered m), record w { success_msgs = delete id w.success_msgs })
unfolding wait_for_send
wait_for_send_delivered id m w f h = simp (f, h, wait_for_send) refl

wait_for_send-none :
    (id : String) (w : WebhooksKafka)
    → lookup id w.failed_msgs ≡ none
    → lookup id w.success_msgs ≡ none
    → wait_for_send id w ≡ (none, w)
unfolding wait_for_send
wait_for_send-none id w f h = simp (f, h, wait_for_send) refl

abbrev pub remains : Option Report → Trace
remains none = waiting true
remains (some r) = no_trace

-- What the wait finds, and what it leaves.
finish_send-outcome :
    (id : String) (o : Option Report) (w : WebhooksKafka)
    → trace id w ≡ outcome true o
    → ((finish_send id w).0 ≡ answer_of o) × (trace id (finish_send id w).1 ≡ remains o)
unfolding finish_send
finish_send-outcome id none w h =
    let f : lookup id w.failed_msgs ≡ none = ap (λ (t : Trace). t.failure) h in
    let s : lookup id w.success_msgs ≡ none = ap (λ (t : Trace). t.success) h in
    rw (wait_for_send-none id w f s) (refl, h)
finish_send-outcome id (some (failed e)) w h =
    let p : lookup id w.pending_msgs ≡ none = ap (λ (t : Trace). t.pending) h in
    let f : lookup id w.failed_msgs ≡ some e = ap (λ (t : Trace). t.failure) h in
    let s : lookup id w.success_msgs ≡ none = ap (λ (t : Trace). t.success) h in
    rw (wait_for_send_failed id e w f) (refl, simp (p, s, same_id id id refl, lookup-delete) refl)
finish_send-outcome id (some (delivered m)) w h =
    let p : lookup id w.pending_msgs ≡ none = ap (λ (t : Trace). t.pending) h in
    let f : lookup id w.failed_msgs ≡ none = ap (λ (t : Trace). t.failure) h in
    let s : lookup id w.success_msgs ≡ some m = ap (λ (t : Trace). t.success) h in
    rw (wait_for_send_delivered id m w f s)
      (refl, simp (p, f, same_id id id refl, lookup-delete) refl)

-- A request that is sent to Kafka with an acknowledgement, under an id that no map holds, and that
-- waits, gets its answer from the first delivery report that carries its id, whatever other reports
-- the two loops go through: 200 with the topic, partition and offset for a success, 502 for an error.
-- It is answered exactly if there is such a report, and then none of the maps holds the id any more;
-- until then it is still marked as pending.
pub finish_send-first_report :
    (marshal : Fields → Result String) (token key id : String) (msg : Fields) (rs : List Report)
    (w w' : WebhooksKafka)
    → trace id w ≡ no_trace
    → (start_send marshal token key id msg true w).0 ≡ none
    → producer_loops rs (start_send marshal token key id msg true w).1 ≡ some w'
    → ((finish_send id w').0 ≡ answer_of (first_report id rs))
      × (trace id (finish_send id w').1 ≡ remains (first_report id rs))
finish_send-first_report marshal token key id msg rs w w' fresh waits run =
    let marked = trace-start_send marshal token key id msg w fresh waits in
    finish_send-outcome id (first_report id rs) w'
      (trace-first_report id rs true (start_send marshal token key id msg true w).1 w' marked run)
