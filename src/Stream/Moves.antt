-- ===== src/Stream/Moves.antt =====
-- What one step of the dispatcher or the processor of eventstream.go does to the events that the
-- stream holds and to its in-flight count.
use zeroxyz.Prelude.{
  ℕ, ◌+◌, ◌%◌, ◌^◌, List, [], ◌∷◌, ◌++◌, Option, none, some, Bool, true, false, not, ◌&&◌, ◌||◌,
  ◌≡◌, refl, ap, ◌∙◌, inl, inr, arith, ltb, eqb, ◌==◌, string_key, if◌then◌else◌, length,
  length-append, Bool-cases,
}
use zeroxyz.Errors.{Error}
use zeroxyz.Stream.State.{EventData, Phase, waiting, trying, counted, ended, EventStream}
use zeroxyz.Stream.Steps.{
  step, dispatch_event, dispatch_timeout, take_batch, attempt, count, acknowledge, process,
}
use zeroxyz.Stream.Holds.{
  concat, undelivered, uncounted, held, counted_events, Move, action, arrived, is_processed,
  settled, IsRunning, IsCounted, Moves, append_assoc, append_nil, concat-last, counted_less,
  length-concat, length-counted_events, same_count, one_more, same_flags, takes, times_out, works,
}

full_batch :
    (u : List EventData) (queue : List (List EventData)) (batch new : List EventData)
    → (u ++ (concat queue ++ batch)) ++ new ≡ u ++ (concat (queue ++ (batch ++ new) ∷ []) ++ [])
full_batch u queue batch new = simp (append_assoc, append_nil, concat-last) refl

more_batch :
    (u : List EventData) (queue : List (List EventData)) (batch new : List EventData)
    → (u ++ (concat queue ++ batch)) ++ new ≡ u ++ (concat queue ++ (batch ++ new))
more_batch u queue batch new = simp append_assoc refl

dispatch_event-Moves :
    (event : EventData) (a : EventStream)
    → IsRunning a
    → Moves (takes event) a (some (dispatch_event event a))
unfolding dispatch_event held
dispatch_event-Moves event a r =
    let u = undelivered a.phase in
    elim (Bool-cases (eqb (length (a.current_batch ++ event ∷ [])) a.spec.batch_size)) [
      | inl full ↦ simp full (
        same_flags a _ r refl refl refl,
        full_batch u a.batch_queue a.current_batch (event ∷ []),
        one_more a _ refl (
            length-counted_events _
            ∙ omega (
              arith,
              length-counted_events a,
              length-concat a.batch_queue (a.current_batch ++ event ∷ []),
              length-append a.current_batch (event ∷ []),
            )),
      )
      | inr room ↦ simp room (
        same_flags a _ r refl refl refl,
        more_batch u a.batch_queue a.current_batch (event ∷ []),
        one_more a _ refl (
            length-counted_events _
            ∙ omega (arith, length-counted_events a, length-append a.current_batch (event ∷ []))),
      )
    ]

timeout_batch :
    (u : List EventData) (queue : List (List EventData)) (batch : List EventData)
    → (u ++ (concat queue ++ batch)) ++ [] ≡ u ++ (concat (queue ++ batch ∷ []) ++ [])
timeout_batch u queue batch = simp (append_nil, concat-last) refl

moved :
    (m : Move) (a : EventStream) (o : Option EventStream) (b : EventStream)
    → o ≡ some b
    → IsRunning b
    → held a ++ arrived m ≡ settled m a ++ held b
    → (IsCounted a → IsCounted b)
    → Moves m a o
moved m a o b q r e c = rw q (r, e, c)

unmoved : (m : Move) (a : EventStream) (o : Option EventStream) → o ≡ none → Moves m a o
unmoved m a o q = rw q tt

dispatch_timeout-Moves :
    (a : EventStream) (batch : List EventData)
    → a.current_batch ≡ batch
    → IsRunning a
    → Moves times_out a (dispatch_timeout a)
unfolding dispatch_timeout held
dispatch_timeout-Moves a [] q r = unmoved times_out a _ (simp (q, dispatch_timeout) refl)
dispatch_timeout-Moves a (event ∷ events) q r =
    moved times_out a _
      (record a { batch_queue = a.batch_queue ++ a.current_batch ∷ []; current_batch = [] })
      (simp (q, dispatch_timeout) refl) (same_flags a _ r refl refl refl)
      (timeout_batch (undelivered a.phase) a.batch_queue a.current_batch)
      (same_count a _ refl (
        length-counted_events _
        ∙ omega (arith, length-counted_events a, length-concat a.batch_queue a.current_batch)))

idle :
    {A : Type 0} (x : A) (updating interrupted : Bool)
    → interrupted ≡ false
    → (if updating && interrupted then some x else none) ≡ none
idle x updating interrupted q = ground (arith, q)

take_batch-Moves :
    (answer : Option Error) (a : EventStream) (queue : List (List EventData))
    → a.batch_queue ≡ queue
    → a.phase ≡ waiting
    → IsRunning a
    → Moves (works answer) a (take_batch a)
unfolding take_batch held counted_events
take_batch-Moves answer a [] q w r =
    unmoved (works answer) a _
      (simp (r.active, q) (idle _ a.update_in_progress a.interrupted r.undisturbed))
take_batch-Moves answer a ([] ∷ queue) q w r =
    moved (works answer) a _ (record a { batch_queue = queue; batch_count = a.batch_count + 1 })
      (simp (r.active, q) refl) (same_flags a _ r refl refl refl) (simp (q, w) (append_nil _))
      (same_count a _ refl (simp (q, w) refl))
take_batch-Moves answer a ((event ∷ events) ∷ queue) q w r =
    moved (works answer) a _
      (record a {
        batch_queue = queue;
        batch_count = a.batch_count + 1;
        phase = trying (event ∷ events) 0 false;
      })
      (simp (r.active, q) refl) (same_flags a _ r refl refl refl)
      (simp (q, w) (simp (append_assoc, append_nil) refl))
      (same_count a _ refl (simp (q, w, append_assoc) refl))

settles_batch :
    (processed : Bool) (events : List EventData) (n : ℕ) (rest : List EventData)
    → (events ++ rest) ++ []
      ≡ (if processed then events else []) ++ (undelivered (trying events n processed) ++ rest)
settles_batch true events n rest = append_nil (events ++ rest)
settles_batch false events n rest = append_nil (events ++ rest)

attempt_settles :
    (answer : Option Error) (a : EventStream) (events : List EventData) (n : ℕ)
    → (events ++ (concat a.batch_queue ++ a.current_batch)) ++ []
      ≡ (if is_processed answer a.spec.error_handling then events else [])
        ++ held (attempt answer events n a)
unfolding attempt held
attempt_settles none a events n = append_nil _
attempt_settles (some e) a events n =
    settles_batch (a.spec.error_handling == "skip") events (n + 1) _

tries_again :
    {A : Type 0} (x y : A) (again interrupted : Bool)
    → interrupted ≡ false
    → (if again && interrupted then some x else some y) ≡ some y
tries_again x y again interrupted q = ground (arith, q)

process-Moves :
    (answer : Option Error) (a : EventStream) (phase : Phase)
    → a.phase ≡ phase
    → IsRunning a
    → Moves (works answer) a (process answer a)
unfolding process held attempt acknowledge counted_events
process-Moves answer a waiting q r =
    simp (q, process) (take_batch-Moves answer a a.batch_queue refl q r)
process-Moves answer a (trying events n true) q r =
    moved (works answer) a _ (count events true a) (simp (q, process, r.active) refl)
      (same_flags a _ r refl refl refl) (simp q (append_nil _))
      (λ c. record {
        counts = counted_less a.in_flight events (concat a.batch_queue ++ a.current_batch) (
            c.counts
            ∙ ap (λ ph. length (uncounted ph ++ (concat a.batch_queue ++ a.current_batch)) % 2 ^ 64)
                q);
      })
process-Moves answer a (trying events n false) q r =
    moved (works answer) a _ (attempt answer events n a)
      (simp (q, process, r.active) (tries_again _ _ (ltb 0 n) a.interrupted r.undisturbed))
      (same_flags a _ r refl refl refl) (simp q (attempt_settles answer a events n))
      (same_count a _ refl (simp q refl))
process-Moves answer a (counted events) q r =
    moved (works answer) a _ (acknowledge events a) (simp (q, process) refl)
      (simp r.active (same_flags a _ r refl refl refl)) (simp (q, r.active) (append_nil _))
      (simp r.active (same_count a _ refl (simp q refl)))
process-Moves answer a (ended told) q r = unmoved (works answer) a _ (simp (q, process) refl)

open_stream :
    (b : EventStream) (suspended stopped dispatching : Bool)
    → (suspended || stopped) ≡ false
    → dispatching ≡ true
    → (if stopped || not dispatching then none else some b) ≡ some b
open_stream b suspended stopped dispatching p q = ground (arith, p, q)

pub step-Moves : (m : Move) (a : EventStream) → IsRunning a → Moves m a (step (action m) a)
unfolding step
step-Moves (takes event) a r =
    let (running, same, counts) = dispatch_event-Moves event a r in
    moved (takes event) a _ (dispatch_event event a)
      (open_stream _ a.spec.suspended a.stopped a.dispatching r.active r.dispatched) running same
      counts
step-Moves times_out a r = dispatch_timeout-Moves a a.current_batch refl r
step-Moves (works answer) a r = process-Moves answer a a.phase refl r
