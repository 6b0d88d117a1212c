-- ===== src/Txn/Ids.antt =====
-- The identifiers of the transactions in flight of txnprocessor.go, by which `cancelInFlight` finds
-- the one to remove.
use zeroxyz.Prelude.{
  ℕ, ◌+◌, ◌<◌, String, Bool, true, false, inl, inr, arith, string_key, All, All-mono, All-append,
  Bool-cases, Option-cases,
}
use zeroxyz.Prelude.Maps.{lookup, put-All, lookup-All}
use zeroxyz.Auth.{Result-cases}
use zeroxyz.Txn.State.{InflightTxn, InflightTxnState, Processor, TransactionCommon}
use zeroxyz.Txn.Env.{Env, Prepared, prepare}
use zeroxyz.Txn.Add.{
  Chosen, bad_nonce, no_count, node_assigned, assigned, finish_add, new_inflight, track, store,
  under_lock, add_inflight_wrapper, empty_state,
}
use zeroxyz.Txn.Added.{in_flight_of}

abbrev HasIdsBelow : ℕ → String × InflightTxnState → Type 0
HasIdsBelow n entry = All (λ (t : InflightTxn). t.id < n) entry.1.txns_in_flight

-- No id in flight will be given again.
pub record IsFresh (p : Processor) : Type 0 where
  pub below : All (HasIdsBelow p.highest_id) p.inflight_txns

HasIdsBelow-suc : (n : ℕ) (e : String × InflightTxnState) → HasIdsBelow n e → HasIdsBelow (n + 1) e
HasIdsBelow-suc n e h = All-mono _ _ e.1.txns_in_flight (λ t k. omega arith) h

store-IsFresh :
    (p : Processor) (from : String) (state : InflightTxnState) (locked : Bool)
    → IsFresh p
    → All (λ (t : InflightTxn). t.id < p.highest_id + 1) state.txns_in_flight
    → IsFresh (store p from state locked)
unfolding store
store-IsFresh p from state locked v h = record {
  below =
      put-All (HasIdsBelow (p.highest_id + 1)) from state p.inflight_txns h
        (All-mono _ _ p.inflight_txns (HasIdsBelow-suc p.highest_id) v.below);
}

finish_add-IsFresh :
    (env : Env) (r : Prepared) (p : Processor) (state : InflightTxnState) (c : Chosen)
    → IsFresh p
    → HasIdsBelow p.highest_id (r.from, state)
    → IsFresh (finish_add env r p state c).1
unfolding finish_add new_inflight track
finish_add-IsFresh env r p state bad_nonce v h =
    store-IsFresh p r.from state true v (HasIdsBelow-suc p.highest_id (r.from, state) h)
finish_add-IsFresh env r p state (no_count e n) v h =
    store-IsFresh p r.from _ false v (HasIdsBelow-suc p.highest_id (r.from, state) h)
finish_add-IsFresh env r p state node_assigned v h = store-IsFresh p r.from _ false v (
    All-append _ state.txns_in_flight _ (HasIdsBelow-suc p.highest_id (r.from, state) h)
      (omega arith, tt))
finish_add-IsFresh env r p state (assigned n highest) v h = store-IsFresh p r.from _ false v (
    All-append _ state.txns_in_flight _ (HasIdsBelow-suc p.highest_id (r.from, state) h)
      (omega arith, tt))

under_lock-IsFresh :
    (env : Env) (msg : TransactionCommon) (r : Prepared) (p : Processor)
    → IsFresh p
    → IsFresh (under_lock env msg r p).1
unfolding under_lock
under_lock-IsFresh env msg r p v = elim (Option-cases (lookup r.from p.inflight_txns)) [
  | inl e ↦ rw (e, under_lock) (finish_add-IsFresh env r p empty_state _ v tt)
  | inr (state, e) ↦
      rw (e, under_lock)
        (finish_add-IsFresh env r p state _ v
          (lookup-All (HasIdsBelow p.highest_id) r.from state p.inflight_txns v.below e))
]

-- While every transaction in flight has an id below the next one, this stays so when a request comes
-- in, whatever becomes of the request.
pub add_inflight_wrapper-IsFresh :
    (env : Env) (msg : TransactionCommon) (p : Processor)
    → IsFresh p
    → IsFresh (add_inflight_wrapper env msg p).1
unfolding add_inflight_wrapper
add_inflight_wrapper-IsFresh env msg p v = elim (Result-cases (prepare env p.conf msg)) [
  | inl (e, q) ↦ rw (q, add_inflight_wrapper) v
  | inr (r, q) ↦
      rw (q, add_inflight_wrapper)
        (elim (Bool-cases p.locked) [
          | inl held ↦ simp held v
          | inr free ↦ simp free (under_lock-IsFresh env msg r p v)
        ])
]

pub in_flight_of-IsFresh :
    (p : Processor) (a : String)
    → IsFresh p
    → All (λ (t : InflightTxn). t.id < p.highest_id) (in_flight_of a p)
unfolding in_flight_of
in_flight_of-IsFresh p a v = elim (Option-cases (lookup a p.inflight_txns)) [
  | inl e ↦ rw (e, in_flight_of) tt
  | inr (state, e) ↦
      rw (e, in_flight_of) (lookup-All (HasIdsBelow p.highest_id) a state p.inflight_txns v.below e)
]
