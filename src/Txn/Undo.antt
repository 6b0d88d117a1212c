-- ===== src/Txn/Undo.antt =====
-- A request that is added and cancelled, by addInflightWrapper and cancelInFlight of txnprocessor.go.
use zeroxyz.Prelude.{
  ◌<◌, String, List, [], ◌∷◌, ◌++◌, some, Bool, false, ◌≡◌, refl, ap, ◌∙◌, inl, inr, arith, ◌==◌,
  string_key, eq_iff, All, Bool-cases,
}
use zeroxyz.Prelude.Int.{ℤ}
use zeroxyz.Prelude.Maps.{lookup}
use zeroxyz.Txn.State.{InflightTxn, InflightTxnState, Processor, TransactionCommon, done}
use zeroxyz.Txn.Env.{Env}
use zeroxyz.Txn.Add.{track, store, add_inflight_wrapper}
use zeroxyz.Txn.Cancel.{remove_id, cancel_in_flight}
use zeroxyz.Txn.Gaps.{remaining, lookup-put_back_removed}
use zeroxyz.Txn.Added.{
  list_of, in_flight_of, AddsTo, add_inflight_wrapper-Adds, lookup-store, locked-store,
}
use zeroxyz.Txn.Ids.{IsFresh, in_flight_of-IsFresh}

remove_id-last :
    (t : InflightTxn) (ts : List InflightTxn)
    → All (λ (u : InflightTxn). u.id < t.id) ts
    → remove_id t.id (ts ++ t ∷ []) ≡ ts
unfolding remove_id
remove_id-last t [] h = ground arith
remove_id-last t (u ∷ ts) h = ground (arith, remove_id-last t ts h.1, h.0)

pub list_of-remaining :
    (state : InflightTxnState) (ts : List InflightTxn) → list_of (remaining state ts) ≡ ts
list_of-remaining state [] = refl
list_of-remaining state (t ∷ ts) = refl

cancel_stored :
    (p : Processor) (t : InflightTxn) (state : InflightTxnState) (highest : ℤ) (gap : Bool)
    (a : String)
    → All (λ (u : InflightTxn). u.id < t.id) state.txns_in_flight
    → state.txns_in_flight ≡ in_flight_of t.from p
    → in_flight_of a (cancel_in_flight t gap (store p t.from (track state t highest) false)).1
      ≡ in_flight_of a p
unfolding in_flight_of track
cancel_stored p t state highest gap a below before =
    let tracked = track state t highest in
    let q = store p t.from tracked false in
    let there : lookup t.from q.inflight_txns ≡ some tracked =
      lookup-store p t.from t.from tracked ∙ ground (arith, eq_iff t.from t.from) in
    let left = remove_id-last t state.txns_in_flight below in
    ap list_of (lookup-put_back_removed t gap q tracked a (locked-store p t.from tracked) there)
    ∙ elim (Bool-cases (t.from == a)) [
      | inl e ↦ simp e (
          list_of-remaining tracked _
          ∙ left
          ∙ before
          ∙ ap (λ b. in_flight_of b p) ((eq_iff t.from a).0 e))
      | inr e ↦
          let other : lookup a q.inflight_txns ≡ lookup a p.inflight_txns =
            lookup-store p t.from a tracked ∙ simp e refl in
          simp e (ap list_of other)
    ]

cancel_added :
    (p : Processor) (t : InflightTxn) (q : Processor) (gap : Bool) (a : String)
    → IsFresh p
    → AddsTo p t.from t q
    → in_flight_of a (cancel_in_flight t gap q).1 ≡ in_flight_of a p
cancel_added p t q gap a v adds =
    let (state, before, more) = adds in
    let (highest, after, from, id) = more in
    let below : All (λ (u : InflightTxn). u.id < t.id) state.txns_in_flight =
      rw (before, id) (in_flight_of-IsFresh p t.from v) in
    ap (λ q. in_flight_of a (cancel_in_flight t gap q).1) after
    ∙ cancel_stored p t state highest gap a below before

-- In a processor whose ids in flight are all below the next one, a request that gets a place in
-- flight and is cancelled leaves, for every address, the transactions that were in flight before.
pub cancel_in_flight-add_inflight_wrapper :
    (env : Env) (msg : TransactionCommon) (p : Processor) (t : InflightTxn) (gap : Bool)
    (a : String)
    → IsFresh p
    → (add_inflight_wrapper env msg p).0 ≡ done t
    → in_flight_of a (cancel_in_flight t gap (add_inflight_wrapper env msg p).1).1
      ≡ in_flight_of a p
cancel_in_flight-add_inflight_wrapper env msg p t gap a v h =
    cancel_added p t _ gap a v (add_inflight_wrapper-Adds env msg p t h)
