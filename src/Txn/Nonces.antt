-- ===== src/Txn/Nonces.antt =====
-- Which nonces txnprocessor.go gives to the transactions that it signs or manages.
use zeroxyz.Prelude.{
  ℕ, ◌+◌, ◌≤◌, ◌<◌, String, List, [], ◌∷◌, none, some, true, false, ◌≡◌, refl, ap, ◌∙◌, arith, ◌==◌,
  string_key, eq_iff, length,
}
use zeroxyz.Prelude.Int.{ℤ, pos, int64_succ, max_int64}
use zeroxyz.Prelude.Maps.{lookup, lookup-put}
use zeroxyz.Auth.{ok}
use zeroxyz.Txn.State.{
  Processor, TransactionCommon, TxnProcessorConf, InflightTxn, InflightTxnState, Outcome, done,
}
use zeroxyz.Txn.Env.{Env, Prepared, prepare, get_transaction_count}
use zeroxyz.Txn.Add.{
  assigned, choose_nonce, public_nonce, node_assign, is_private, finish_add, new_inflight, track,
  store, under_lock, add_inflight_wrapper, empty_state,
}

-- A public request for an address whose nonces are managed here, with no nonce of its own.
pub record IsManaged (from : String) (conf : TxnProcessorConf) (env : Env) (msg : TransactionCommon)
    : Type 0 where
  pub ready : Prepared
  pub prepares : prepare env conf msg ≡ ok ready
  pub address : ready.from ≡ from
  pub managed : node_assign conf ready ≡ false
  pub unsupplied : (msg.nonce == "") ≡ true
  pub public : is_private conf msg ≡ false

int64_succ_pos : (h : ℕ) → h < max_int64 → int64_succ (pos h) ≡ pos (h + 1)
unfolding int64_succ
int64_succ_pos h lt = ground arith

module _ (from : String) (conf : TxnProcessorConf) (env : Env) (msg : TransactionCommon)
    (w : IsManaged from conf env msg) where
  -- From memory, one above the highest nonce of the entry.
  choose_nonce_more :
      (state : InflightTxnState) (h : ℕ)
      → state.highest_nonce ≡ pos h
      → choose_nonce env conf msg w.ready true state
        ≡ assigned (int64_succ (pos h)) (int64_succ (pos h))
  unfolding choose_nonce public_nonce
  choose_nonce_more state h highest = ground (arith, w.managed, w.unsupplied, w.public, highest)

  -- With no entry, from the node.
  choose_nonce_first :
      (n : ℤ)
      → get_transaction_count env w.ready.from ≡ ok n
      → choose_nonce env conf msg w.ready false empty_state ≡ assigned n (pos 0)
  unfolding choose_nonce public_nonce
  choose_nonce_first n count = ground (arith, w.managed, w.unsupplied, w.public, count)

module _ (env : Env) (msg : TransactionCommon) (p : Processor) (from : String)
    (w : IsManaged from p.conf env msg) (free : p.locked ≡ false) where
  -- The transaction that a managed request gets, and the processor after it.
  abbrev added : ℤ → InflightTxn
  added nonce = new_inflight env w.ready p.highest_id false nonce

  abbrev after : InflightTxnState → ℤ → ℤ → Processor
  after state nonce highest = store p w.ready.from (track state (added nonce) highest) false

  under_lock-next :
      (state : InflightTxnState) (h : ℕ)
      → lookup w.ready.from p.inflight_txns ≡ some state
      → state.highest_nonce ≡ pos h
      → h < max_int64
      → under_lock env msg w.ready p
        ≡ (done (added (pos (h + 1))), after state (pos (h + 1)) (pos (h + 1)))
  unfolding under_lock finish_add
  under_lock-next state h there highest room =
      rw (there, under_lock)
        (rw (choose_nonce_more from p.conf env msg w state h highest, int64_succ_pos h room))

  -- A further transaction of an address gets the next nonce, which is remembered.
  next_nonce :
      (state : InflightTxnState) (h : ℕ)
      → lookup w.ready.from p.inflight_txns ≡ some state
      → state.highest_nonce ≡ pos h
      → h < max_int64
      → add_inflight_wrapper env msg p
        ≡ (done (added (pos (h + 1))), after state (pos (h + 1)) (pos (h + 1)))
  unfolding add_inflight_wrapper
  next_nonce state h there highest room =
      rw (w.prepares, add_inflight_wrapper) (simp free (under_lock-next state h there highest room))

  -- The first transaction of an address gets the node's count, and 0 is remembered.
  first_nonce :
      (n : ℤ)
      → lookup w.ready.from p.inflight_txns ≡ none
      → get_transaction_count env w.ready.from ≡ ok n
      → add_inflight_wrapper env msg p ≡ (done (added n), after empty_state n (pos 0))
  unfolding add_inflight_wrapper under_lock finish_add
  first_nonce n missing count =
      rw (w.prepares, add_inflight_wrapper)
        (simp free
          (rw (missing, under_lock) (rw (choose_nonce_first from p.conf env msg w n count))))

lookup-store :
    (p : Processor) (from : String) (r : Prepared) (state : InflightTxnState)
    → r.from ≡ from
    → lookup from (store p r.from state false).inflight_txns ≡ some state
unfolding store
lookup-store p from r state q = rw lookup-put (ground (arith, eq_iff r.from from, q))

-- The requests one after another.
pub add_all : List (Env × TransactionCommon) → Processor → List (Outcome InflightTxn)
add_all [] p = []
add_all ((env, msg) ∷ rest) p =
    (add_inflight_wrapper env msg p).0 ∷ add_all rest (add_inflight_wrapper env msg p).1

abbrev pub HasNonces : ℕ → List (Outcome InflightTxn) → Type 0
HasNonces h [] = Unit {0}
HasNonces h (o ∷ os) =
    ((t : InflightTxn) × (o ≡ done t) × (t.nonce ≡ pos (h + 1))) × HasNonces (h + 1) os

abbrev pub AllManaged : String → TxnProcessorConf → List (Env × TransactionCommon) → Type 0
AllManaged from conf [] = Unit {0}
AllManaged from conf ((env, msg) ∷ rest) = IsManaged from conf env msg × AllManaged from conf rest

-- While an unlocked processor has an entry for an address whose highest nonce is `h`, requests for
-- the address that are managed, public and supply no nonce get the nonces h + 1, h + 2 and so on in
-- their order, none skipped and none twice, as far as int64 goes.
pub consecutive_nonces :
    (from : String) (requests : List (Env × TransactionCommon)) (p : Processor)
    (state : InflightTxnState) (h : ℕ)
    → AllManaged from p.conf requests
    → p.locked ≡ false
    → lookup from p.inflight_txns ≡ some state
    → state.highest_nonce ≡ pos h
    → h + length requests ≤ max_int64
    → HasNonces h (add_all requests p)
unfolding add_all store track new_inflight
consecutive_nonces from [] p state h ws free there highest room = tt
consecutive_nonces from ((env, msg) ∷ rest) p state h ws free there highest room =
    let w = ws.0 in
    let e = next_nonce env msg p from w free state h (rw w.address there) highest (omega arith) in
    let state' = track state (added env msg p from w free (pos (h + 1))) (pos (h + 1)) in
    rw e (
      (added env msg p from w free (pos (h + 1)), refl, refl),
      consecutive_nonces from rest (store p w.ready.from state' false) state' (h + 1) ws.1 refl
          (lookup-store p from w.ready state' w.address) refl (omega arith),
    )

-- In an unlocked processor the first managed transaction of an address without an entry takes the
-- node's count `n`, but 0 is remembered for it: the second one that is managed while the first is
-- in flight gets the nonce 1, whatever `n` is.
pub second_nonce_is_one :
    (from : String) (env env' : Env) (msg msg' : TransactionCommon) (p : Processor) (n : ℤ)
    → IsManaged from p.conf env msg
    → IsManaged from p.conf env' msg'
    → p.locked ≡ false
    → lookup from p.inflight_txns ≡ none
    → get_transaction_count env from ≡ ok n
    → (t : InflightTxn) × (t' : InflightTxn) × (add_all ((env, msg) ∷ (env', msg') ∷ []) p
        ≡ done t ∷ done t' ∷ [])
      × (t.nonce ≡ n)
      × (t'.nonce ≡ pos 1)
unfolding add_all store track new_inflight
second_nonce_is_one from env env' msg msg' p n w w' free missing count =
    let e =
      first_nonce env msg p from w free n (rw w.address missing)
        (ap (get_transaction_count env) w.address ∙ count) in
    let state = track empty_state (added env msg p from w free n) (pos 0) in
    let q = store p w.ready.from state false in
    let e' =
      next_nonce env' msg' q from w' refl state 0
        (rw w'.address (lookup-store p from w.ready state w.address)) refl (omega arith) in
    (added env msg p from w free n, added env' msg' q from w' refl (pos 1), rw (e, e'), refl, refl)
