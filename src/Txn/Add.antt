-- ===== src/Txn/Add.antt =====
-- `addInflightWrapper` of txnprocessor.go: the nonce that a transaction gets, and its place in flight.
use zeroxyz.Prelude.{
  ℕ, ◌+◌, String, [], ◌∷◌, ◌++◌, none, some, Bool, true, false, not, ◌&&◌, ◌||◌, ◌==◌, string_key,
  if◌then◌else◌,
}
use zeroxyz.Prelude.Int.{ℤ, pos, negsuc, leb_ℤ, int64_succ}
use zeroxyz.Prelude.ParseInt.{parse_int}
use zeroxyz.Prelude.Maps.{lookup, put}
use zeroxyz.Errors.{ErrorId, Error, errorf}
use zeroxyz.Auth.{Result, ok, err}
use zeroxyz.Txn.State.{
  InflightTxn, TxnProcessorConf, InflightTxnState, Processor, TransactionCommon, Outcome, blocked,
  failed, done,
}
use zeroxyz.Txn.Env.{Env, Prepared, prepare, nonempty, get_orion_tx_count, get_transaction_count}

-- The nonce that a request gets, and the highest nonce to remember for its address.
pub data Chosen : Type 0 where
  -- a supplied nonce that is no number: the call returns with the lock held
  bad_nonce : Chosen
  -- the node did not answer
  no_count : Error → ℤ → Chosen
  node_assigned : Chosen
  assigned : ℤ → ℤ → Chosen

abbrev pub is_private : TxnProcessorConf → TransactionCommon → Bool
is_private conf msg =
    conf.orion_private_apis && (nonempty msg.private_for || not (msg.privacy_group_id == ""))

abbrev supplied : String → ℤ → Chosen
supplied s highest = elim (parse_int 64 s) [ none ↦ bad_nonce | some n ↦ assigned n highest ]

abbrev counted_private : Result ℤ → ℤ → Chosen
counted_private (ok n) highest = assigned n highest
counted_private (err e) highest = no_count e highest

-- GetTransactionCount gives 0 beside an error, and that 0 is remembered.
abbrev counted : Result ℤ → ℤ → Chosen
counted (ok n) highest = assigned n highest
counted (err e) highest = no_count e (pos 0)

abbrev pub Choice : Type 0
Choice = Env → TxnProcessorConf → TransactionCommon → Prepared → Bool → InflightTxnState → Chosen

-- The request leaves the nonce to the node: nobody here signs it, and nonces are not managed.
abbrev pub node_assign : TxnProcessorConf → Prepared → Bool
node_assign conf r =
    (elim r.signer [ none ↦ true | some s ↦ false ]) && not conf.always_manage_nonce

-- The highest nonce in flight if it may be used, or -1.
abbrev pub usable_highest :
    TxnProcessorConf → TransactionCommon → Prepared → Bool → InflightTxnState → ℤ
usable_highest conf msg r exists state =
    if not (node_assign conf r) && (msg.nonce == "") && exists
    then state.highest_nonce
    else negsuc 0

-- A public transaction with no supplied nonce.
unfoldable pub public_nonce : Choice
unfolding get_transaction_count
public_nonce env conf msg r exists state =
    let highest = usable_highest conf msg r exists state in
    if leb_ℤ (pos 0) highest
    then assigned (int64_succ highest) (int64_succ highest)
    else if node_assign conf r
    then node_assigned
    else counted (get_transaction_count env r.from) state.highest_nonce

-- `state` is the entry of the address, and `exists` whether it was there before.
unfoldable pub choose_nonce : Choice
unfolding get_orion_tx_count public_nonce
choose_nonce env conf msg r exists state =
    if not (msg.nonce == "")
    then supplied msg.nonce state.highest_nonce
    else if is_private conf msg
    then counted_private (get_orion_tx_count env r.from r.privacy_group_id) state.highest_nonce
    else public_nonce env conf msg r exists state

-- Nobody else sees the fields that are set while the lock is held.
unfoldable pub new_inflight : Env → Prepared → ℕ → Bool → ℤ → InflightTxn
new_inflight env r id node_assign nonce = record {
  id = id;
  from = r.from;
  node_assign_nonce = node_assign;
  nonce = nonce;
  privacy_group_id = r.privacy_group_id;
  initial_wait_delay = env.initial_delay;
  rpc = r.rpc;
  signer = r.signer;
  register_as = "";
  gap_fill_succeeded = false;
  gap_fill_tx_hash = "";
}

-- The entry with one more transaction.
unfoldable pub track : InflightTxnState → InflightTxn → ℤ → InflightTxnState
track state inflight highest = record {
  txns_in_flight = state.txns_in_flight ++ inflight ∷ [];
  highest_nonce = highest;
}

-- The processor with the entry of an address replaced, the next id, and the lock as given.
unfoldable pub store : Processor → String → InflightTxnState → Bool → Processor
store p from state locked = record p {
  locked = locked;
  inflight_txns = put from state p.inflight_txns;
  highest_id = p.highest_id + 1;
}

unfoldable pub finish_add :
    Env → Prepared → Processor → InflightTxnState → Chosen → Outcome InflightTxn × Processor
unfolding new_inflight track store
finish_add env r p state bad_nonce =
    (failed (errorf ErrorId.transaction_send_bad_nonce), store p r.from state true)
finish_add env r p state (no_count e highest) =
    (failed e, store p r.from (record state { highest_nonce = highest }) false)
finish_add env r p state node_assigned =
    let inflight = new_inflight env r p.highest_id true (pos 0) in
    (done inflight, store p r.from (track state inflight state.highest_nonce) false)
finish_add env r p state (assigned nonce highest) =
    let inflight = new_inflight env r p.highest_id false nonce in
    (done inflight, store p r.from (track state inflight highest) false)

-- Go's zero value of `inflightTxnState`, with an empty list.
abbrev pub empty_state : InflightTxnState
empty_state = record { txns_in_flight = []; highest_nonce = pos 0 }

unfoldable pub under_lock :
    Env → TransactionCommon → Prepared → Processor → Outcome InflightTxn × Processor
unfolding finish_add choose_nonce
under_lock env msg r p = elim (lookup r.from p.inflight_txns) [
  | none ↦ finish_add env r p empty_state (choose_nonce env p.conf msg r false empty_state)
  | some state ↦ finish_add env r p state (choose_nonce env p.conf msg r true state)
]

unfoldable pub add_inflight_wrapper :
    Env → TransactionCommon → Processor → Outcome InflightTxn × Processor
unfolding prepare under_lock
add_inflight_wrapper env msg p = elim (prepare env p.conf msg) [
  | err e ↦ (failed e, p)
  | ok r ↦ if p.locked then (blocked, p) else under_lock env msg r p
]
