-- ===== src/Rest/Traces.antt =====
-- What the maps of webhookskafka.go say of one id while delivery reports come in.
use zeroxyz.Prelude.{
  String, List, [], ◌∷◌, Option, none, some, Bool, true, false, ◌≡◌, refl, sym, ◌∙◌, ap, inl, inr,
  ◌⊎◌, subst, if◌then◌else◌, ◌==◌, string_key, Bool-cases, Option-cases,
}
use zeroxyz.Prelude.Maps.{lookup, lookup-put, lookup-delete}
use zeroxyz.Rest.Posting.{
  ProducerMessage, ProducerError, Report, failed, delivered, WebhooksKafka, fail_pending,
  deliver_pending, metadata_of, on_report, producer_loops,
}

-- What the maps say of one id.
pub record Trace : Type 0 where
  pub pending : Option Bool
  pub failure : Option ProducerError
  pub success : Option ProducerMessage

abbrev pub trace : String → WebhooksKafka → Trace
trace id w = record {
  pending = lookup id w.pending_msgs;
  failure = lookup id w.failed_msgs;
  success = lookup id w.success_msgs;
}

abbrev pub no_trace : Trace
no_trace = record { pending = none; failure = none; success = none }

abbrev pub report_id : Report → Option String
report_id (failed e) = metadata_of e.msg
report_id (delivered m) = m.metadata

abbrev pub is_for : String → Report → Bool
is_for id r = elim (report_id r) [ none ↦ false | some k ↦ k == id ]

-- The first report with the id.
unfoldable pub first_report : String → List Report → Option Report
first_report id [] = none
first_report id (r ∷ rs) = let rest = first_report id rs in if is_for id r then some r else rest

-- What the maps say of an id that a report has settled.
abbrev settled : Report → Trace
settled (failed e) = record { pending = none; failure = some e; success = none }
settled (delivered m) = record { pending = none; failure = none; success = some m }

settled_pending : (r : Report) → (settled r).pending ≡ none
settled_pending (failed e) = refl
settled_pending (delivered m) = refl

settle : String → Report → WebhooksKafka → WebhooksKafka
settle k (failed e) w = fail_pending k e w
settle k (delivered m) w = deliver_pending k m w

on_report_of_id :
    (k : String) (r : Report) (w : WebhooksKafka)
    → report_id r ≡ some k
    → on_report r w ≡ some (settle k r w)
unfolding settle on_report
on_report_of_id k (failed e) w h = simp (h, on_report) refl
on_report_of_id k (delivered m) w h = simp (h, on_report) refl

on_report_of_none : (r : Report) (w : WebhooksKafka) → report_id r ≡ none → on_report r w ≡ none
unfolding on_report
on_report_of_none (failed e) w h = simp (h, on_report) refl
on_report_of_none (delivered m) w h = simp (h, on_report) refl

same_trace :
    (p p' : Option Bool) (f f' : Option ProducerError) (s s' : Option ProducerMessage)
    → p ≡ p'
    → f ≡ f'
    → s ≡ s'
    → Path Trace
        (record { pending = p; failure = f; success = s })
        (record { pending = p'; failure = f'; success = s' })
same_trace p p' f f' s s' a b c = cc

-- A report for another id changes nothing.
trace-settle_other :
    (id k : String) (r : Report) (w : WebhooksKafka)
    → (k == id) ≡ false
    → trace id (settle k r w) ≡ trace id w
unfolding settle fail_pending deliver_pending
trace-settle_other id k (failed e) w h = elim (Option-cases (lookup k w.pending_msgs)) [
  | inl q ↦ simp (q, fail_pending, deliver_pending) refl
  | inr (b, q) ↦ simp (q, h, fail_pending, deliver_pending, lookup-delete, lookup-put) refl
]
trace-settle_other id k (delivered m) w h = elim (Option-cases (lookup k w.pending_msgs)) [
  | inl q ↦ simp (q, fail_pending, deliver_pending) refl
  | inr (b, q) ↦ simp (q, h, fail_pending, deliver_pending, lookup-delete, lookup-put) refl
]

pub same_id : (k id : String) → k ≡ id → (k == id) ≡ true
same_id k id h = (string_key.equal_iff k id).1 h

different_id : (k id : String) → ((k == id) ≡ true → ⊥) → (k == id) ≡ false
different_id k id h = elim (Bool-cases (k == id)) [ inl a ↦ absurd (h a) | inr b ↦ b ]

-- What the maps say of an id that is waited for.
abbrev pub waiting : Bool → Trace
waiting b = record { pending = some b; failure = none; success = none }

-- The first report for an id that is waited for settles it.
trace-settle_own :
    (id : String) (r : Report) (b : Bool) (w : WebhooksKafka)
    → trace id w ≡ waiting b
    → trace id (settle id r w) ≡ settled r
unfolding settle fail_pending deliver_pending
trace-settle_own id (failed e) b w h =
    let p : lookup id w.pending_msgs ≡ some b = ap (λ (t : Trace). t.pending) h in
    let s : lookup id w.success_msgs ≡ none = ap (λ (t : Trace). t.success) h in
    simp (p, s, same_id id id refl, fail_pending, lookup-delete, lookup-put) refl
trace-settle_own id (delivered m) b w h =
    let p : lookup id w.pending_msgs ≡ some b = ap (λ (t : Trace). t.pending) h in
    let f : lookup id w.failed_msgs ≡ none = ap (λ (t : Trace). t.failure) h in
    simp (p, f, same_id id id refl, deliver_pending, lookup-delete, lookup-put) refl

-- A report for an id that is not waited for is dropped.
settle_dropped :
    (id : String) (r : Report) (w : WebhooksKafka)
    → lookup id w.pending_msgs ≡ none
    → settle id r w ≡ w
unfolding settle fail_pending deliver_pending
settle_dropped id (failed e) w h = simp (h, fail_pending) refl
settle_dropped id (delivered m) w h = simp (h, deliver_pending) refl

-- What one report does to what the maps say of an id.
trace-on_report :
    (id : String) (r : Report) (w w' : WebhooksKafka)
    → on_report r w ≡ some w'
    → ((is_for id r ≡ true) × (w' ≡ settle id r w))
      ⊎ ((is_for id r ≡ false) × (trace id w' ≡ trace id w))
trace-on_report id r w w' h = elim (Option-cases (report_id r)) [
  | inl q ↦ absurd (cc (on_report_of_none r w q, h))
  | inr (k, q) ↦
      let moved : w' ≡ settle k r w = cc (on_report_of_id k r w q, h) in
      elim (Bool-cases (k == id)) [
        | inl e ↦
            let same : k ≡ id = (string_key.equal_iff k id).0 e in
            inl (simp (q, is_for) e, moved ∙ ap (λ j. settle j r w) same)
        | inr e ↦ inr (simp (q, is_for) e, ap (trace id) moved ∙ trace-settle_other id k r w e)
      ]
]

-- Reports change nothing for an id that is not waited for.
trace-producer_loops :
    (id : String) (rs : List Report) (w w' : WebhooksKafka)
    → lookup id w.pending_msgs ≡ none
    → producer_loops rs w ≡ some w'
    → trace id w' ≡ trace id w
unfolding producer_loops
trace-producer_loops id [] w w' h k = let same : w ≡ w' = cc (k) in ap (trace id) (sym same)
trace-producer_loops id (r ∷ rs) w w' h k = elim (Option-cases (on_report r w)) [
  | inl q ↦ absurd (cc (q, k))
  | inr (v, q) ↦
      let next : producer_loops rs v ≡ some w' =
        subst (λ o. (elim o [ none ↦ none | some u ↦ producer_loops rs u ]) ≡ some w') q k in
      let step : trace id v ≡ trace id w = elim (trace-on_report id r w v q) [
        | inl (_, moved) ↦ ap (trace id) (moved ∙ settle_dropped id r w h)
        | inr (_, same) ↦ same
      ] in
      trace-producer_loops id rs v w' (ap (λ (t : Trace). t.pending) step ∙ h) next ∙ step
]

abbrev pub outcome : Bool → Option Report → Trace
outcome b none = waiting b
outcome b (some r) = settled r

-- Reports settle an id that is waited for by the first of them for it.
pub trace-first_report :
    (id : String) (rs : List Report) (b : Bool) (w w' : WebhooksKafka)
    → trace id w ≡ waiting b
    → producer_loops rs w ≡ some w'
    → trace id w' ≡ outcome b (first_report id rs)
unfolding producer_loops first_report
trace-first_report id [] b w w' h k = (let same : w ≡ w' = cc (k) in ap (trace id) (sym same)) ∙ h
trace-first_report id (r ∷ rs) b w w' h k = elim (Option-cases (on_report r w)) [
  | inl q ↦ absurd (cc (q, k))
  | inr (v, q) ↦
      let next : producer_loops rs v ≡ some w' =
        subst (λ o. (elim o [ none ↦ none | some u ↦ producer_loops rs u ]) ≡ some w') q k in
      elim (trace-on_report id r w v q) [
        | inl (mine, moved) ↦
            let now : trace id v ≡ settled r = ap (trace id) moved ∙ trace-settle_own id r b w h in
            simp mine (
              trace-producer_loops id rs v w'
                (ap (λ (t : Trace). t.pending) now ∙ settled_pending r) next
              ∙ now)
        | inr (other, same) ↦ simp other (trace-first_report id rs b v w' (same ∙ h) next)
      ]
]
