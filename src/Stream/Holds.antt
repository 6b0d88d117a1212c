-- ===== src/Stream/Holds.antt =====
-- The events that an event stream of eventstream.go holds and counts, and what one step may do to
-- them.
use zeroxyz.Prelude.{
  ℕ, ◌+◌, ◌%◌, ◌^◌, String, List, [], ◌∷◌, ◌++◌, Option, none, some, Bool, true, false, ◌≡◌, refl,
  ap, sym, ◌∙◌, arith, ◌==◌, string_key, if◌then◌else◌, length, length-append,
}
use zeroxyz.Errors.{Error}
use zeroxyz.Stream.State.{
  EventData, Phase, trying, EventStream, suspend_or_stop, uint64_suc, uint64_sub,
}
use zeroxyz.Stream.Steps.{Action, arrive, timeout, work}

abbrev pub concat : List (List EventData) → List EventData
concat [] = []
concat (batch ∷ batches) = batch ++ concat batches

-- The events that the processor still has to deliver.
abbrev pub undelivered : Phase → List EventData
undelivered (trying events n false) = events
undelivered _ = []

-- The events that the processor has not taken off the in-flight count.
abbrev pub uncounted : Phase → List EventData
uncounted (trying events n processed) = events
uncounted _ = []

-- The events that the stream has yet to deliver, the oldest first.
unfoldable pub held : EventStream → List EventData
held a = undelivered a.phase ++ (concat a.batch_queue ++ a.current_batch)

-- The events that the stream has on its in-flight count.
unfoldable pub counted_events : EventStream → List EventData
counted_events a = uncounted a.phase ++ (concat a.batch_queue ++ a.current_batch)

-- A step of the dispatcher or the processor, and the event that it takes in.
pub data Move : Type 0 where
  takes : EventData → Move
  times_out : Move
  works : Option Error → Move

abbrev pub action : Move → Action
action (takes event) = arrive event
action times_out = timeout
action (works answer) = work answer

abbrev pub arrived : Move → List EventData
arrived (takes event) = event ∷ []
arrived _ = []

abbrev pub is_processed : Option Error → String → Bool
is_processed none strategy = true
is_processed (some e) strategy = strategy == "skip"

-- The batch that an attempt settles: the receiver takes it, or the strategy is to skip it.
abbrev pub settled_in : Option Error → String → Phase → List EventData
settled_in answer strategy (trying events n false) =
    if is_processed answer strategy then events else []
settled_in answer strategy _ = []

abbrev pub settled : Move → EventStream → List EventData
settled (works answer) a = settled_in answer a.spec.error_handling a.phase
settled _ a = []

-- The stream is neither suspended nor stopped nor being updated.
pub record IsRunning (a : EventStream) : Type 0 where
  pub active : suspend_or_stop a ≡ false
  pub undisturbed : a.interrupted ≡ false
  pub dispatched : a.dispatching ≡ true

-- The in-flight count is the number of the events that the stream counts, on uint64.
pub record IsCounted (a : EventStream) : Type 0 where
  pub counts : a.in_flight ≡ length (counted_events a) % 2 ^ 64

-- What one step does to the events that the stream holds.
abbrev pub Moves : Move → EventStream → Option EventStream → Type 0
Moves m a none = Unit {0}
Moves m a (some b) =
    IsRunning b × (held a ++ arrived m ≡ settled m a ++ held b) × (IsCounted a → IsCounted b)

pub append_assoc : (xs ys zs : List EventData) → (xs ++ ys) ++ zs ≡ xs ++ (ys ++ zs)
append_assoc [] ys zs = refl
append_assoc (x ∷ xs) ys zs = ap (λ l. x ∷ l) (append_assoc xs ys zs)

pub append_nil : (xs : List EventData) → xs ++ [] ≡ xs
append_nil [] = refl
append_nil (x ∷ xs) = ap (λ l. x ∷ l) (append_nil xs)

pub concat-last :
    (batches : List (List EventData)) (batch : List EventData)
    → concat (batches ++ batch ∷ []) ≡ concat batches ++ batch
concat-last [] batch = append_nil batch
concat-last (b ∷ batches) batch =
    ap (λ l. b ++ l) (concat-last batches batch) ∙ sym (append_assoc b (concat batches) batch)

uint64_suc-mod : (n : ℕ) → uint64_suc (n % 2 ^ 64) ≡ (n + 1) % 2 ^ 64
uint64_suc-mod n = omega arith

uint64_sub-mod : (n m : ℕ) → uint64_sub ((n + m) % 2 ^ 64) n ≡ m % 2 ^ 64
uint64_sub-mod n m = omega arith

counted_more :
    (n : ℕ) (before after : List EventData)
    → length after ≡ length before + 1
    → n ≡ length before % 2 ^ 64
    → uint64_suc n ≡ length after % 2 ^ 64
counted_more n before after q h =
    ap uint64_suc h ∙ uint64_suc-mod (length before) ∙ ap (λ k. k % 2 ^ 64) (sym q)

pub counted_less :
    (n : ℕ) (events rest : List EventData)
    → n ≡ length (events ++ rest) % 2 ^ 64
    → uint64_sub n (length events) ≡ length rest % 2 ^ 64
counted_less n events rest h =
    ap (λ k. uint64_sub k (length events)) (h ∙ ap (λ k. k % 2 ^ 64) (length-append events rest))
    ∙ uint64_sub-mod (length events) (length rest)

pub length-concat :
    (queue : List (List EventData)) (batch : List EventData)
    → length (concat (queue ++ batch ∷ [])) ≡ length (concat queue) + length batch
length-concat queue batch = ap length (concat-last queue batch) ∙ length-append (concat queue) batch

pub length-counted_events :
    (a : EventStream)
    → length (counted_events a)
      ≡ length (uncounted a.phase) + (length (concat a.batch_queue) + length a.current_batch)
unfolding counted_events
length-counted_events a =
    length-append (uncounted a.phase) _
    ∙ ap (λ k. length (uncounted a.phase) + k)
        (length-append (concat a.batch_queue) a.current_batch)

pub same_count :
    (a b : EventStream)
    → b.in_flight ≡ a.in_flight
    → length (counted_events b) ≡ length (counted_events a)
    → IsCounted a
    → IsCounted b
same_count a b q l c = record { counts = q ∙ c.counts ∙ ap (λ k. k % 2 ^ 64) (sym l) }

pub one_more :
    (a b : EventStream)
    → b.in_flight ≡ uint64_suc a.in_flight
    → length (counted_events b) ≡ length (counted_events a) + 1
    → IsCounted a
    → IsCounted b
one_more a b q l c = record {
  counts = q ∙ counted_more a.in_flight (counted_events a) (counted_events b) l c.counts;
}

pub same_flags :
    (a b : EventStream)
    → IsRunning a
    → suspend_or_stop b ≡ suspend_or_stop a
    → b.interrupted ≡ a.interrupted
    → b.dispatching ≡ a.dispatching
    → IsRunning b
same_flags a b r p q d = record {
  active = p ∙ r.active;
  undisturbed = q ∙ r.undisturbed;
  dispatched = d ∙ r.dispatched;
}
