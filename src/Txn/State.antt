-- ===== src/Txn/State.antt =====
-- The state of the transaction processor of internal/maidenlanetx/txnprocessor.go, and what a request
-- carries (`TransactionCommon` of internal/maidenlanemessages/messages.go).
use zeroxyz.Prelude.{ℕ, String, List, Option, Bool}
use zeroxyz.Prelude.Int.{ℤ}
use zeroxyz.Prelude.Maps.{Map}
use zeroxyz.Errors.{Error}

-- The signer of an HD wallet, known by its address.
pub record Signer : Type 0 where
  pub address : String

pub record InflightTxn : Type 0 where
  pub id : ℕ
  pub from : String
  pub node_assign_nonce : Bool
  pub nonce : ℤ
  pub privacy_group_id : String
  pub initial_wait_delay : ℕ
  pub rpc : String
  pub signer : Option Signer
  pub register_as : String
  pub gap_fill_succeeded : Bool
  pub gap_fill_tx_hash : String

pub record TxnProcessorConf : Type 0 where
  pub always_manage_nonce : Bool
  pub attempt_gap_fill : Bool
  pub max_tx_wait_time : ℕ
  pub send_concurrency : ℕ
  pub orion_private_apis : Bool
  pub hex_values_in_receipt : Bool

pub record InflightTxnState : Type 0 where
  pub txns_in_flight : List InflightTxn
  pub highest_nonce : ℤ

-- `highest_id` is the highestID of the package, which one processor uses; it is not cut to 64 bits.
-- What `locked` says of `inflightTxnsLock` is true while no goroutine that runs will unlock it.
pub record Processor : Type 0 where
  pub conf : TxnProcessorConf
  pub locked : Bool
  pub inflight_txns : Map String InflightTxnState
  pub highest_id : ℕ

pub record TransactionCommon : Type 0 where
  pub nonce : String
  pub from : String
  pub private_from : String
  pub private_for : List String
  pub privacy_group_id : String

-- What a call under the lock gives; `blocked` if it waits for the lock for ever.
pub data Outcome (A : Type 0) : Type 0 where
  blocked : Outcome A
  failed : Error → Outcome A
  done : A → Outcome A

-- A call of code outside this package (go-ethereum, or internal/maidenlaneeth) that may panic; no
-- panic is recovered.
pub data Call (A : Type 0) : Type 0 where
  panics : Call A
  returned : A → Call A
