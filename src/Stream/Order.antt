-- ===== src/Stream/Order.antt =====
-- The order in which an event stream of eventstream.go delivers its events, and what its in-flight
-- count counts.
use zeroxyz.Prelude.{
  ◌<◌, ◌^◌, List, [], ◌∷◌, ◌++◌, Option, none, some, true, ◌≡◌, ap, subst, sym, ◌∙◌, inl, inr, ◌↔◌,
  ◌≤◌, arith, length, Option-cases,
}
use zeroxyz.Stream.State.{EventData, EventStream, is_blocked}
use zeroxyz.Stream.Steps.{step}
use zeroxyz.Stream.Holds.{
  Move, action, arrived, settled, held, counted_events, IsRunning, IsCounted, Moves, append_assoc,
  append_nil,
}
use zeroxyz.Stream.Moves.{step-Moves}

-- The steps one after another, and what they take in and settle.
abbrev pub run : List Move → EventStream → Option EventStream
run [] a = some a
run (m ∷ ms) a = elim (step (action m) a) [ none ↦ none | some b ↦ run ms b ]

abbrev pub all_arrived : List Move → List EventData
all_arrived [] = []
all_arrived (m ∷ ms) = arrived m ++ all_arrived ms

abbrev pub all_settled : List Move → EventStream → List EventData
all_settled [] a = []
all_settled (m ∷ ms) a =
    settled m a ++ (elim (step (action m) a) [ none ↦ [] | some b ↦ all_settled ms b ])

-- While a stream is neither suspended nor stopped nor updated, however its goroutines take turns, the
-- batches that it settles are the events that it held and those that arrived, each once and in order,
-- less those that it still holds: nothing is lost, repeated or overtaken. A batch is settled by the
-- attempt that the receiver takes or, under the strategy "skip", by an attempt that fails.
pub deliver_in_order :
    (ms : List Move) (a b : EventStream)
    → IsRunning a
    → run ms a ≡ some b
    → held a ++ all_arrived ms ≡ all_settled ms a ++ held b
deliver_in_order [] a b r = λ q. append_nil (held a) ∙ ap held (ground (arith, q))
deliver_in_order (m ∷ ms) a b r = elim (Option-cases (step (action m) a)) [
  | inl e ↦
      λ q. absurd (ground (arith, sym (ap (λ o. elim o [ none ↦ none | some b ↦ run ms b ]) e) ∙ q))
  | inr (c, e) ↦ simp e (λ q.
      let (running, same, counts) = subst (Moves m a) e (step-Moves m a r) in
      let onward : run ms c ≡ some b =
        sym (ap (λ o. elim o [ none ↦ none | some b ↦ run ms b ]) e) ∙ q in
      let rest = deliver_in_order ms c b running onward in
      sym (append_assoc (held a) (arrived m) (all_arrived ms))
      ∙ ap (λ l. l ++ all_arrived ms) same
      ∙ append_assoc (settled m a) (held c) (all_arrived ms)
      ∙ ap (λ l. settled m a ++ l) rest
      ∙ sym (append_assoc (settled m a) (all_settled ms c) (held b)))
]

-- While a stream that started with a right count is neither suspended nor stopped nor updated, its
-- in-flight count stays the number of the events that it has taken in and not finished with, on
-- uint64.
pub count_in_flight :
    (ms : List Move) (a b : EventStream)
    → IsRunning a
    → IsCounted a
    → run ms a ≡ some b
    → IsCounted b
count_in_flight [] a b r c = λ q. subst IsCounted (ground (arith, q)) c
count_in_flight (m ∷ ms) a b r c = elim (Option-cases (step (action m) a)) [
  | inl e ↦
      λ q. absurd (ground (arith, sym (ap (λ o. elim o [ none ↦ none | some b ↦ run ms b ]) e) ∙ q))
  | inr (n, e) ↦ λ q.
      let (running, same, counts) = subst (Moves m a) e (step-Moves m a r) in
      let onward : run ms n ≡ some b =
        sym (ap (λ o. elim o [ none ↦ none | some b ↦ run ms b ]) e) ∙ q in
      count_in_flight ms n b running (counts c) onward
]

-- While a stream that started with a right count runs, and holds less than 2 ^ 64 events, isBlocked
-- holds the poller back exactly when the events that it has not finished with are a batch or more.
pub is_blocked_iff :
    (ms : List Move) (a b : EventStream)
    → IsRunning a
    → IsCounted a
    → run ms a ≡ some b
    → length (counted_events b) < 2 ^ 64
    → (is_blocked b ≡ true) ↔ (b.spec.batch_size ≤ length (counted_events b))
unfolding is_blocked
is_blocked_iff ms a b r c q room =
    let right = (count_in_flight ms a b r c q).counts in
    (λ h. ground (arith, right), λ h. ground (arith, right))
