-- ===== src/Txn/Flow.antt =====
-- What txnprocessor.go does with a message from its arrival to its reply.
use zeroxyz.Prelude.{
  ℕ, String, List, [], ◌∷◌, Option, none, some, Bool, true, false, ltb, string_key, if◌then◌else◌,
}
use zeroxyz.Errors.{ErrorId, Error, errorf}
use zeroxyz.Auth.{Result, ok, err}
use zeroxyz.Txn.State.{
  InflightTxn, TxnProcessorConf, Processor, TransactionCommon, Outcome, blocked, failed, done, Call,
  panics, returned,
}
use zeroxyz.Txn.Env.{Env}
use zeroxyz.Txn.Add.{add_inflight_wrapper}
use zeroxyz.Txn.Cancel.{cancel_in_flight, submit_gap_fill_tx}
use zeroxyz.Txn.Reply.{
  TxnReceipt, Reply, send_error_reply, send_error_reply_with_tx, send_error_reply_with_gap_fill,
  reply, build_reply,
}

-- What the code outside this file does with one message: building the transaction (NewSendTxn,
-- NewContractDeployTxn), sending it, and the same for a transaction that fills a gap.
pub record Sending : Type 0 where
  pub built : Call (Result String)
  pub sent : Call (Option Error)
  pub gap_fill_built : Call (Result String)
  pub gap_fill_sent : Call (Option Error)

-- How the handling of a message ends: it waits for the lock for ever, a panic ends the process, it has
-- replied, a goroutine sends the transaction, or a goroutine tracks it.
pub data Ending : Type 0 where
  stuck : Ending
  crashed : Ending
  replied : Reply → Ending
  sending : InflightTxn → Ending
  tracking : InflightTxn → Ending

unfoldable pub gap_filled : Error → Call InflightTxn → Ending
gap_filled e panics = crashed
gap_filled e (returned filled) =
    replied (send_error_reply_with_gap_fill 400 e filled.gap_fill_tx_hash filled.gap_fill_succeeded)

-- After Send failed: the place in flight is given up, and a gap is filled if there is one.
unfoldable pub send_failed :
    Sending → Error → InflightTxn → TxnProcessorConf → Outcome Bool → Ending
unfolding gap_filled
send_failed io e inflight conf blocked = stuck
send_failed io e inflight conf (failed e') = stuck
send_failed io e inflight conf (done gap) = gap_filled e (
    if gap
    then submit_gap_fill_tx conf io.gap_fill_built io.gap_fill_sent inflight
    else returned inflight)

unfoldable pub send_and_track_mining : Sending → InflightTxn → Processor → Ending × Processor
unfolding send_failed
send_and_track_mining io inflight p = elim io.sent [
  | panics ↦ (crashed, p)
  | returned none ↦ (tracking inflight, p)
  | returned (some e) ↦
      let (cancelled, p') = cancel_in_flight inflight true p in
      (send_failed io e inflight p.conf cancelled, p')
]

unfoldable pub build_failed : Error → Outcome Bool → Ending
build_failed e blocked = stuck
build_failed e (failed e') = stuck
build_failed e (done gap) = replied (send_error_reply 400 e)

-- From a place in flight to the send. With a concurrency above 1 a goroutine makes it, which runs
-- `send_and_track_mining` on the processor as it finds it; the wait for a free slot before that is
-- left out.
unfoldable pub send_transaction_common : Sending → InflightTxn → Processor → Ending × Processor
unfolding build_failed
send_transaction_common io inflight p = elim io.built [
  | panics ↦ (crashed, p)
  | returned (err e) ↦
      let (cancelled, p') = cancel_in_flight inflight false p in (build_failed e cancelled, p')
  | returned (ok tx) ↦
      if ltb 1 p.conf.send_concurrency
      then (sending inflight, p)
      else send_and_track_mining io inflight p
]

-- The common part of OnDeployContractMessage and OnSendTransactionMessage.
unfoldable pub on_transaction :
    Sending → String → Outcome InflightTxn × Processor → Ending × Processor
on_transaction io register_as (blocked, p) = (stuck, p)
on_transaction io register_as (failed e, p) = (replied (send_error_reply 400 e), p)
on_transaction io register_as (done inflight, p) =
    send_transaction_common io (record inflight { register_as = register_as }) p

-- A message, as its type says and as it unmarshals.
pub data Request : Type 0 where
  deploy_contract : Result (TransactionCommon × String) → Request
  send_transaction : Result TransactionCommon → Request
  unknown_type : Request

unfoldable pub on_message : Env → Sending → Request → Processor → Ending × Processor
unfolding on_transaction
on_message env io (deploy_contract (ok (msg, register_as))) p =
    on_transaction io register_as (add_inflight_wrapper env msg p)
on_message env io (deploy_contract (err e)) p = (replied (send_error_reply 400 e), p)
on_message env io (send_transaction (ok msg)) p =
    on_transaction io "" (add_inflight_wrapper env msg p)
on_message env io (send_transaction (err e)) p = (replied (send_error_reply 400 e), p)
on_message env io unknown_type p =
    (replied (send_error_reply 400 (errorf ErrorId.transaction_send_msg_type_unknown)), p)

-- One call of GetTXReceipt, and the time elapsed after it.
pub record Poll : Type 0 where
  pub answer : Result Bool
  pub elapsed : ℕ

-- How the loop over the receipt ends.
pub data Wait : Type 0 where
  waiting : Wait
  timed_out : Option Error → Wait
  mined : ℕ → Wait

unfoldable pub is_mined : Result Bool → Bool
is_mined (ok b) = b
is_mined (err e) = false

unfoldable pub error_of : Result Bool → Option Error
error_of (ok b) = none
error_of (err e) = some e

-- The loop of waitForCompletion over the polls that are made; `waiting` if they run out first, and
-- where the loop waits for ever for the lock, before a retry or before the statistics.
unfoldable pub wait_loop : Bool → ℕ → List Poll → Wait
unfolding is_mined error_of
wait_loop locked max_wait [] = waiting
wait_loop locked max_wait (poll ∷ polls) =
    let rest = wait_loop locked max_wait polls in
    if ltb max_wait poll.elapsed
    then timed_out (error_of poll.answer)
    else if locked
    then waiting
    else if is_mined poll.answer
    then mined poll.elapsed
    else rest

unfoldable pub completion_reply : Bool → InflightTxn → String → TxnReceipt → Wait → Option Reply
completion_reply hex inflight hash receipt waiting = none
completion_reply hex inflight hash receipt (timed_out (some e)) =
    some (send_error_reply_with_tx 500 (errorf ErrorId.transaction_send_receipt_check_error) hash)
completion_reply hex inflight hash receipt (timed_out none) =
    some (send_error_reply_with_tx 408 (errorf ErrorId.transaction_send_receipt_check_timeout) hash)
completion_reply hex inflight hash receipt (mined elapsed) =
    some (reply (build_reply hex receipt inflight.register_as inflight.nonce))

-- The goroutine that tracks a transaction: its reply, and the processor once it is done. `none`
-- while it still waits; `hash` and `receipt` are those of the sent transaction.
unfoldable pub wait_for_completion :
    List Poll → String → TxnReceipt → InflightTxn → Processor → Option Reply × Processor
unfolding completion_reply
wait_for_completion polls hash receipt inflight p =
    let w = wait_loop p.locked p.conf.max_tx_wait_time polls in
    (
      completion_reply p.conf.hex_values_in_receipt inflight hash receipt w,
      elim w [ waiting ↦ p | _ ↦ (cancel_in_flight inflight false p).1 ],
    )
