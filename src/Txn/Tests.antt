-- ===== src/Txn/Tests.antt =====
-- The transaction processor on concrete requests.
use zeroxyz.Prelude.{
  ℕ, String, [], ◌∷◌, none, some, true, false, ◌&&◌, ◌≡◌, refl, inr, ◌↔◌, arith, if◌then◌else◌, Any,
  ◌==◌, string_key,
}
use zeroxyz.Prelude.ParseInt.{parse_int}
use zeroxyz.Prelude.Int.{int64_succ, ℤ, pos}
use zeroxyz.Prelude.Maps.{lookup}
use zeroxyz.Errors.{ErrorId, errorf}
use zeroxyz.Auth.{ok}
use zeroxyz.Txn.State.{
  InflightTxn, InflightTxnState, Processor, TxnProcessorConf, TransactionCommon, blocked, done,
  returned,
}
use zeroxyz.Txn.Env.{Env, prepare, get_transaction_count}
use zeroxyz.Txn.Add.{add_inflight_wrapper}
use zeroxyz.Txn.Cancel.{remove_id, cancel_in_flight}
use zeroxyz.Txn.Reply.{TxnReceipt}
use zeroxyz.Txn.Flow.{Sending, send_and_track_mining, Poll, wait_for_completion}
use zeroxyz.Txn.Lock.{bad_nonce_blocks, locked-add_inflight_wrapper, is_ok, has_bad_nonce}
use zeroxyz.Txn.Nonces.{IsManaged, add_all, HasNonces, consecutive_nonces, second_nonce_is_one}
use zeroxyz.Txn.Gaps.{WaitsBehind, cancel_in_flight_gap, lookup-cancel_in_flight, remaining}
use zeroxyz.Txn.Added.{in_flight_of}
use zeroxyz.Txn.Ids.{IsFresh, add_inflight_wrapper-IsFresh}
use zeroxyz.Txn.Undo.{cancel_in_flight-add_inflight_wrapper}
use zeroxyz.Txn.Replies.{verdict, wait_for_completion_first}
use zeroxyz.Txn.Sends.{Sends, send_and_track_mining-settles}
use zeroxyz.Txn.Settles.{Settles}

abbrev node : Env
node = record {
  is_hd_wallet_request = λ s. false;
  hdwallet = none;
  rpc = "http://node";
  address_book = none;
  hex_address = λ s. some s;
  eth_get_transaction_count = λ a. ok 7;
  priv_get_transaction_count = λ a g. ok 0;
  priv_find_privacy_group = λ m. ok [];
  priv_create_privacy_group = λ m. ok "group";
  initial_delay = 0;
}

abbrev conf : TxnProcessorConf
conf = record {
  always_manage_nonce = true;
  attempt_gap_fill = true;
  max_tx_wait_time = 60;
  send_concurrency = 1;
  orion_private_apis = false;
  hex_values_in_receipt = false;
}

abbrev idle : Processor
idle = record { conf = conf; locked = false; inflight_txns = []; highest_id = 0 }

abbrev plain : TransactionCommon
plain = record {
  nonce = "";
  from = "0xa";
  private_from = "";
  private_for = [];
  privacy_group_id = "";
}

abbrev garbled : TransactionCommon
garbled = record plain { nonce = "seven" }

abbrev txn : ℕ → ℤ → InflightTxn
txn id nonce = record {
  id = id;
  from = "0xa";
  node_assign_nonce = false;
  nonce = nonce;
  privacy_group_id = "";
  initial_wait_delay = 0;
  rpc = "http://node";
  signer = none;
  register_as = "";
  gap_fill_succeeded = false;
  gap_fill_tx_hash = "";
}

abbrev two : InflightTxnState
two = record { txns_in_flight = txn 0 (pos 7) ∷ txn 1 (pos 8) ∷ []; highest_nonce = pos 8 }

abbrev busy : Processor
busy = record idle { inflight_txns = ("0xa", two) ∷ []; highest_id = 2 }

prepares :
    prepare node conf plain
    ≡ ok (record { from = "0xa"; signer = none; rpc = "http://node"; privacy_group_id = "" })
unfolding prepare
prepares = refl

managed : IsManaged "0xa" conf node plain
managed = record {
  ready = record { from = "0xa"; signer = none; rpc = "http://node"; privacy_group_id = "" };
  prepares = prepares;
  address = refl;
  managed = refl;
  unsupplied = refl;
  public = refl;
}

bad_nonce_blocks_example :
    add_inflight_wrapper node plain (add_inflight_wrapper node garbled idle).1
    ≡ (blocked, (add_inflight_wrapper node garbled idle).1)
unfolding prepare parse_int
bad_nonce_blocks_example = bad_nonce_blocks node node garbled plain idle refl refl refl refl

locked-add_inflight_wrapper_example :
    (add_inflight_wrapper node garbled idle).1.locked
    ≡ (is_ok (prepare node conf garbled) && has_bad_nonce garbled)
locked-add_inflight_wrapper_example = locked-add_inflight_wrapper node garbled idle refl

consecutive_nonces_example : HasNonces 8 (add_all ((node, plain) ∷ (node, plain) ∷ []) busy)
unfolding lookup
consecutive_nonces_example =
    consecutive_nonces "0xa" ((node, plain) ∷ (node, plain) ∷ []) busy two 8
      (managed, (managed, tt)) refl refl refl (omega arith)

second_nonce_is_one_example :
    (t : InflightTxn) × (t' : InflightTxn) × (add_all ((node, plain) ∷ (node, plain) ∷ []) idle
      ≡ done t ∷ done t' ∷ [])
    × (t.nonce ≡ pos 7)
    × (t'.nonce ≡ pos 1)
unfolding get_transaction_count lookup
second_nonce_is_one_example =
    second_nonce_is_one "0xa" node node plain plain idle (pos 7) managed managed refl refl refl

cancel_in_flight_gap_example : ((cancel_in_flight (txn 0 (pos 7)) true busy).0 ≡ done true) ↔ (
    (true ≡ true)
    × (false ≡ false)
    × Any (WaitsBehind (pos 7)) (remove_id 0 (txn 0 (pos 7) ∷ txn 1 (pos 8) ∷ [])))
unfolding lookup
cancel_in_flight_gap_example = cancel_in_flight_gap (txn 0 (pos 7)) true busy two refl refl

lookup-cancel_in_flight_example :
    lookup "0xa" (cancel_in_flight (txn 1 (pos 8)) true busy).1.inflight_txns ≡ (
      if ◌==◌ {K = String} "0xa" "0xa"
      then remaining two (txn 0 (pos 7) ∷ [])
      else lookup "0xa" busy.inflight_txns)
unfolding lookup
lookup-cancel_in_flight_example =
    lookup-cancel_in_flight (txn 1 (pos 8)) true busy two "0xa" (txn 0 (pos 7) ∷ []) (txn 1 (pos 8))
      [] refl refl refl (refl, tt) refl

busy-IsFresh : IsFresh busy
busy-IsFresh = record { below = ((omega arith, (omega arith, tt)), tt) }

add_inflight_wrapper-IsFresh_example : IsFresh (add_inflight_wrapper node plain busy).1
add_inflight_wrapper-IsFresh_example = add_inflight_wrapper-IsFresh node plain busy busy-IsFresh

third : (add_inflight_wrapper node plain busy).0 ≡ done (txn 2 (pos 9))
unfolding add_inflight_wrapper lookup int64_succ
third = refl

cancel_in_flight-add_inflight_wrapper_example :
    in_flight_of "0xa"
      (cancel_in_flight (txn 2 (pos 9)) true (add_inflight_wrapper node plain busy).1).1
    ≡ in_flight_of "0xa" busy
cancel_in_flight-add_inflight_wrapper_example =
    cancel_in_flight-add_inflight_wrapper node plain busy (txn 2 (pos 9)) true "0xa" busy-IsFresh
      third

abbrev receipt : TxnReceipt
receipt = record {
  block_hash = none;
  block_number = some 12;
  contract_address = none;
  cumulative_gas_used = none;
  from = none;
  gas_used = some 21000;
  status = some 1;
  to = none;
  transaction_hash = some "0xhash";
  transaction_index = some 0;
}

abbrev early_poll : Poll
early_poll = record { answer = ok false; elapsed = 5 }

abbrev late_poll : Poll
late_poll = record { answer = ok true; elapsed = 61 }

wait_for_completion_first_example :
    wait_for_completion (early_poll ∷ late_poll ∷ []) "0xhash" receipt (txn 0 (pos 7)) busy ≡ (
      some (verdict false true (txn 0 (pos 7)) "0xhash" receipt (ok true)),
      (cancel_in_flight (txn 0 (pos 7)) false busy).1,
    )
wait_for_completion_first_example =
    wait_for_completion_first (early_poll ∷ []) late_poll [] "0xhash" receipt (txn 0 (pos 7)) busy
      refl ((omega arith, λ h. absurd (cc (h))), tt) (inr refl)

abbrev refused : Sending
refused = record {
  built = returned (ok "tx");
  sent = returned (some (errorf ErrorId.rpc_call_returned_error));
  gap_fill_built = returned (ok "0xfill");
  gap_fill_sent = returned none;
}

send_and_track_mining-settles_example :
    Sends refused
      (txn 0 (pos 7))
      (txn 1 (pos 8) ∷ [])
      busy
      (send_and_track_mining refused (txn 0 (pos 7)) busy)
unfolding lookup
send_and_track_mining-settles_example =
    send_and_track_mining-settles refused (txn 0 (pos 7)) busy two [] (txn 0 (pos 7))
      (txn 1 (pos 8) ∷ []) refl refl refl tt refl
