-- ===== src/Stream/Updates.antt =====
-- What an update of eventstream.go does to the batch being filled, and how a wrong webhook ends it.
use zeroxyz.Prelude.{
  ◌+◌, ◌%◌, ◌^◌, List, [], ◌∷◌, ◌++◌, Option, none, some, true, false, ◌≡◌, refl, ap, ◌∙◌, arith,
  string_key, length,
}
use zeroxyz.Errors.{Error}
use zeroxyz.Stream.Spec.{Texts, StreamInfo, update_spec}
use zeroxyz.Stream.State.{waiting, ended, EventStream}
use zeroxyz.Stream.Steps.{
  Action, arrive, timeout, work, suspend, resume, stop, start_update, finish_update, step, process,
  take_batch, dispatch_timeout, resume_stream, waits_with_lock, begin_update, end_update, updated,
}
use zeroxyz.Stream.Holds.{counted_events, held, IsCounted, append_assoc, length-counted_events}

-- An update of a stream whose count is right, that is not being updated, and whose lock is free drops the batch that the
-- dispatcher fills, but leaves its events on the in-flight count.
pub start_update_loses :
    (a : EventStream)
    → a.interrupted ≡ false
    → waits_with_lock a ≡ false
    → IsCounted a
    → (b : EventStream) × (step start_update a ≡ some b)
      × (held a ≡ held b ++ a.current_batch)
      × (b.in_flight ≡ (length (counted_events b) + length a.current_batch) % 2 ^ 64)
unfolding step begin_update held
start_update_loses a free open_ c =
    let b = record a {
      update_in_progress = true;
      interrupted = true;
      dispatching = false;
      current_batch = [];
    } in
    (
      b,
      simp (free, open_) refl,
      simp append_assoc refl,
      c.counts
          ∙ ap (λ k. k % 2 ^ 64) (omega (arith, length-counted_events a, length-counted_events b)),
    )

-- Actions and steps one after the other; none where one of them cannot be taken.
abbrev pub steps : List Action → EventStream → Option EventStream
steps [] a = some a
steps (x ∷ xs) a = elim (step x a) [ none ↦ none | some b ↦ steps xs b ]

steps_first :
    (x : Action) (xs : List Action) (a b : EventStream)
    → step x a ≡ some b
    → steps (x ∷ xs) a ≡ steps xs b
steps_first x xs a b h = ap (λ o. elim o [ none ↦ none | some b ↦ steps xs b ]) h

updated_wrong :
    (a : EventStream) (r : StreamInfo × Option Error) (e : Error)
    → r.1 ≡ some e
    → updated a r ≡ record a { spec = r.0 }
unfolding updated
updated_wrong a (spec, some e') e h = refl
updated_wrong a (spec, none) e h = absurd (cc)

-- A stream that runs and has nothing to do.
pub record IsIdle (a : EventStream) : Type 0 where
  pub waits : a.phase ≡ waiting
  pub empty : a.batch_queue ≡ []
  pub active : a.spec.suspended ≡ false
  pub open_ : a.stopped ≡ false
  pub settled : a.update_in_progress ≡ false
  pub whole : a.interrupted ≡ false

-- The states of an update that fails, each after the one before.
abbrev begun : EventStream → EventStream
begun a = record a {
  update_in_progress = true;
  interrupted = true;
  dispatching = false;
  current_batch = [];
}

abbrev told : EventStream → EventStream
told a = record (begun a) { phase = ended true }

abbrev refused : Texts → StreamInfo → EventStream → EventStream
refused texts new a = record (told a) { spec = (update_spec texts a.spec new).0 }

abbrev resumed : Texts → StreamInfo → EventStream → EventStream
resumed texts new a = record (refused texts new a) {
  spec = record (update_spec texts a.spec new).0 { suspended = false };
  phase = waiting;
  interrupted = false;
}

module _ (a : EventStream) (idle : IsIdle a) where
  step-begun : step start_update a ≡ some (begun a)
  unfolding step begin_update waits_with_lock
  step-begun = simp (idle.whole, idle.waits, idle.settled, waits_with_lock) refl

  step-told : (answer : Option Error) → step (work answer) (begun a) ≡ some (told a)
  unfolding step process take_batch
  step-told answer =
      simp (idle.waits, idle.empty, idle.active, idle.open_, process, take_batch) refl

  step-refused :
      (texts : Texts) (new : StreamInfo) (e : Error)
      → (update_spec texts a.spec new).1 ≡ some e
      → step (finish_update texts new) (told a) ≡ some (refused texts new a)
  unfolding step end_update
  step-refused texts new e wrong =
      ap some (updated_wrong (told a) (update_spec texts a.spec new) e wrong)

  step-resumed :
      (texts : Texts) (new : StreamInfo)
      → step resume (refused texts new a) ≡ some (resumed texts new a)
  unfolding step resume_stream
  step-resumed texts new = refl

  step-none : (texts : Texts) (new : StreamInfo) (x : Action) → step x (resumed texts new a) ≡ none
  unfolding step process take_batch dispatch_timeout resume_stream begin_update end_update
      waits_with_lock
  step-none texts new (arrive event) = simp (idle.open_) refl
  step-none texts new timeout = refl
  step-none texts new (work answer) = simp (idle.open_, idle.empty, take_batch) refl
  step-none texts new suspend = simp (idle.open_, idle.empty) refl
  step-none texts new resume = refl
  step-none texts new stop = simp (idle.open_, idle.empty) refl
  step-none texts new start_update = simp (idle.open_, idle.empty) refl
  step-none texts new (finish_update texts' new') = refl

-- An update of a stream that runs and has nothing to do, to a wrong webhook, and a resume after it
-- can be made, and leave the stream locked: no event arrives, no timer runs out, the processor makes
-- no step, and suspend, resume, stop and update never return.
pub failed_update_locks :
    (texts : Texts) (new : StreamInfo) (a : EventStream) (answer : Option Error) (e : Error)
    → IsIdle a
    → (update_spec texts a.spec new).1 ≡ some e
    → (b : EventStream) × (steps
          (start_update ∷ work answer ∷ finish_update texts new ∷ resume ∷ [])
          a
        ≡ some b)
      × ((x : Action) → step x b ≡ none)
failed_update_locks texts new a answer e idle wrong = (
  resumed texts new a,
  steps_first start_update (work answer ∷ finish_update texts new ∷ resume ∷ []) a _
        (step-begun a idle)
      ∙ steps_first (work answer) (finish_update texts new ∷ resume ∷ []) (begun a) _
          (step-told a idle answer)
      ∙ steps_first (finish_update texts new) (resume ∷ []) (told a) _
          (step-refused a idle texts new e wrong)
      ∙ steps_first resume [] (refused texts new a) _ (step-resumed a idle texts new),
  step-none a idle texts new,
)
