-- ===== src/Txn/Replies.antt =====
-- One reply for each message: OnMessage, sendTransactionCommon and waitForCompletion of
-- txnprocessor.go.
use zeroxyz.Prelude.{
  ℕ, ◌≤◌, ◌<◌, String, List, [], ◌∷◌, ◌++◌, some, Bool, true, false, ◌≡◌, ◌≢◌, refl, ap, ◌∙◌, ◌⊎◌,
  inl, inr, arith, ltb, All, string_key, Bool-cases, Option-cases,
}
use zeroxyz.Prelude.Maps.{lookup}
use zeroxyz.Errors.{ErrorId, errorf}
use zeroxyz.Auth.{Result, ok, err, Result-cases}
use zeroxyz.Txn.State.{Processor, InflightTxn, done}
use zeroxyz.Txn.Cancel.{cancel_in_flight}
use zeroxyz.Txn.Reply.{TxnReceipt, Reply, send_error_reply_with_tx, reply, build_reply}
use zeroxyz.Txn.Flow.{
  Poll, timed_out, mined, wait_loop, wait_for_completion, completion_reply, is_mined, error_of,
}

-- A poll that leaves the goroutine waiting: in time, and with no mined receipt.
abbrev pub IsQuiet : ℕ → Poll → Type 0
IsQuiet max_wait poll = (poll.elapsed ≤ max_wait) × (poll.answer ≢ ok true)

skip_poll :
    (max_wait : ℕ) (poll : Poll) (polls : List Poll)
    → IsQuiet max_wait poll
    → wait_loop false max_wait (poll ∷ polls) ≡ wait_loop false max_wait polls
unfolding wait_loop is_mined error_of
skip_poll max_wait poll polls h = elim (Result-cases poll.answer) [
  | inl (e, q) ↦ ground (arith, q, h.0)
  | inr (b, q) ↦
      let fresh : b ≡ false = elim (Bool-cases b) [
        | inl found ↦ absurd (h.1 (q ∙ ap ok found))
        | inr unfound ↦ unfound
      ] in
      ground (arith, q, h.0, fresh)
]

skip_quiet :
    (max_wait : ℕ) (quiet polls : List Poll)
    → All (IsQuiet max_wait) quiet
    → wait_loop false max_wait (quiet ++ polls) ≡ wait_loop false max_wait polls
skip_quiet max_wait [] polls h = refl
skip_quiet max_wait (poll ∷ quiet) polls h =
    skip_poll max_wait poll (quiet ++ polls) h.0 ∙ skip_quiet max_wait quiet polls h.1

pub cancel_in_flight-ne-blocked :
    (inflight : InflightTxn) (gap : Bool) (p : Processor)
    → p.locked ≡ false
    → (b : Bool) × ((cancel_in_flight inflight gap p).0 ≡ done b)
unfolding cancel_in_flight
cancel_in_flight-ne-blocked inflight gap p free =
    elim (Option-cases (lookup inflight.from p.inflight_txns)) [
      | inl e ↦ simp free (rw (e, cancel_in_flight) (_, refl))
      | inr (state, e) ↦ simp free (rw (e, cancel_in_flight) (_, refl))
    ]

-- What the first poll that ends the wait leads to.
abbrev pub verdict : Bool → Bool → InflightTxn → String → TxnReceipt → Result Bool → Reply
verdict hex true inflight hash receipt (err e) =
    send_error_reply_with_tx 500 (errorf ErrorId.transaction_send_receipt_check_error) hash
verdict hex true inflight hash receipt (ok b) =
    send_error_reply_with_tx 408 (errorf ErrorId.transaction_send_receipt_check_timeout) hash
verdict hex false inflight hash receipt answer =
    reply (build_reply hex receipt inflight.register_as inflight.nonce)

wait_loop-late :
    (max_wait : ℕ) (poll : Poll) (later : List Poll)
    → ltb max_wait poll.elapsed ≡ true
    → wait_loop false max_wait (poll ∷ later) ≡ timed_out (error_of poll.answer)
unfolding wait_loop
wait_loop-late max_wait poll later late = simp late refl

wait_loop-mined :
    (max_wait : ℕ) (poll : Poll) (later : List Poll)
    → ltb max_wait poll.elapsed ≡ false
    → poll.answer ≡ ok true
    → wait_loop false max_wait (poll ∷ later) ≡ mined poll.elapsed
unfolding wait_loop is_mined
wait_loop-mined max_wait poll later early found = simp (early, found) refl

completion_reply-late :
    (hex : Bool) (inflight : InflightTxn) (hash : String) (receipt : TxnReceipt)
    (answer : Result Bool)
    → completion_reply hex inflight hash receipt (timed_out (error_of answer))
      ≡ some (verdict hex true inflight hash receipt answer)
unfolding completion_reply error_of
completion_reply-late hex inflight hash receipt (ok b) = refl
completion_reply-late hex inflight hash receipt (err e) = refl

-- While nobody holds the lock, the goroutine that tracks a transaction ends with the first poll
-- that is too late or finds the transaction mined, whatever is polled after: it replies once and
-- gives up the place in flight. If that poll is too late the reply is an error, 500 after a failed
-- poll and else 408, also when the poll finds the transaction mined; in time it is the receipt.
pub wait_for_completion_first :
    (quiet : List Poll) (poll : Poll) (later : List Poll) (hash : String) (receipt : TxnReceipt)
    (inflight : InflightTxn) (p : Processor)
    → p.locked ≡ false
    → All (IsQuiet p.conf.max_tx_wait_time) quiet
    → (p.conf.max_tx_wait_time < poll.elapsed) ⊎ (poll.answer ≡ ok true)
    → wait_for_completion (quiet ++ poll ∷ later) hash receipt inflight p ≡ (
      some (
          verdict p.conf.hex_values_in_receipt
            (ltb p.conf.max_tx_wait_time poll.elapsed)
            inflight
            hash
            receipt
            poll.answer),
      (cancel_in_flight inflight false p).1,
    )
unfolding wait_for_completion completion_reply
wait_for_completion_first quiet poll later hash receipt inflight p free early decisive =
    let max_wait = p.conf.max_tx_wait_time in
    let hex = p.conf.hex_values_in_receipt in
    simp (free, skip_quiet max_wait quiet (poll ∷ later) early)
      (elim (Bool-cases (ltb max_wait poll.elapsed)) [
        | inl late ↦
            simp
              (
                wait_loop-late max_wait poll later late,
                late,
                completion_reply-late hex inflight hash receipt poll.answer,
              )
              refl
        | inr intime ↦
            let found : poll.answer ≡ ok true = elim decisive [
              | inl late ↦ absurd (ground (arith, late, intime))
              | inr found ↦ found
            ] in
            simp (wait_loop-mined max_wait poll later intime found, intime, found) refl
      ])
