-- ===== src/Txn/Added.antt =====
-- What a call of `addInflightWrapper` of txnprocessor.go does to the transactions in flight.
use zeroxyz.Prelude.{
  String, List, [], ◌∷◌, ◌++◌, Option, none, some, Bool, true, false, ◌≡◌, refl, ap, sym, ◌∙◌, inl,
  inr, arith, ◌==◌, string_key, eq_iff, if◌then◌else◌, Bool-cases, Option-cases,
}
use zeroxyz.Prelude.Int.{ℤ, pos}
use zeroxyz.Prelude.Maps.{lookup, lookup-put}
use zeroxyz.Errors.{Error}
use zeroxyz.Auth.{Result-cases}
use zeroxyz.Txn.State.{InflightTxn, InflightTxnState, Processor, TransactionCommon, failed, done}
use zeroxyz.Txn.Env.{Env, Prepared, prepare}
use zeroxyz.Txn.Add.{
  Chosen, bad_nonce, no_count, node_assigned, assigned, finish_add, new_inflight, track, store,
  under_lock, add_inflight_wrapper, empty_state,
}

abbrev pub list_of : Option InflightTxnState → List InflightTxn
list_of none = []
list_of (some s) = s.txns_in_flight

-- The transactions of an address.
unfoldable pub in_flight_of : String → Processor → List InflightTxn
in_flight_of a p = list_of (lookup a p.inflight_txns)

-- What `finish_add` gives when it succeeds: one more transaction, under the next id.
abbrev pub Adds : Processor → String → InflightTxnState → InflightTxn → Processor → Type 0
Adds p from state t q =
    (highest : ℤ) × (q ≡ store p from (track state t highest) false)
    × (t.from ≡ from)
    × (t.id ≡ p.highest_id)

finish_add-Adds :
    (env : Env) (r : Prepared) (p : Processor) (state : InflightTxnState) (c : Chosen)
    (t : InflightTxn)
    → (finish_add env r p state c).0 ≡ done t
    → Adds p r.from state t (finish_add env r p state c).1
unfolding finish_add new_inflight
finish_add-Adds env r p state bad_nonce t h = absurd (cc)
finish_add-Adds env r p state (no_count e n) t h = absurd (cc)
finish_add-Adds env r p state node_assigned t h =
    let same : new_inflight env r p.highest_id true (pos 0) ≡ t = ground arith in
    (state.highest_nonce, rw (← same), rw (← same), rw (← same))
finish_add-Adds env r p state (assigned n highest) t h =
    let same : new_inflight env r p.highest_id false n ≡ t = ground arith in
    (highest, rw (← same), rw (← same), rw (← same))

-- What a successful call adds, to the transactions that the address had.
abbrev pub AddsTo : Processor → String → InflightTxn → Processor → Type 0
AddsTo p from t q =
    (state : InflightTxnState) × (state.txns_in_flight ≡ in_flight_of from p)
    × Adds p from state t q

under_lock-Adds :
    (env : Env) (msg : TransactionCommon) (r : Prepared) (p : Processor) (t : InflightTxn)
    → (under_lock env msg r p).0 ≡ done t
    → AddsTo p r.from t (under_lock env msg r p).1
unfolding under_lock in_flight_of
under_lock-Adds env msg r p t = elim (Option-cases (lookup r.from p.inflight_txns)) [
  | inl e ↦
      rw (e, under_lock, in_flight_of)
        (λ h. (empty_state, refl, finish_add-Adds env r p empty_state _ t h))
  | inr (state, e) ↦
      rw (e, under_lock, in_flight_of) (λ h. (state, refl, finish_add-Adds env r p state _ t h))
]

pub add_inflight_wrapper-Adds :
    (env : Env) (msg : TransactionCommon) (p : Processor) (t : InflightTxn)
    → (add_inflight_wrapper env msg p).0 ≡ done t
    → AddsTo p t.from t (add_inflight_wrapper env msg p).1
unfolding add_inflight_wrapper
add_inflight_wrapper-Adds env msg p t = elim (Result-cases (prepare env p.conf msg)) [
  | inl (e, q) ↦ rw (q, add_inflight_wrapper) (λ h. absurd (cc (h)))
  | inr (r, q) ↦
      rw (q, add_inflight_wrapper)
        (elim (Bool-cases p.locked) [
          | inl held ↦ simp held (λ h. absurd (cc (h)))
          | inr free ↦ simp free (λ h.
              let (state, before, adds) = under_lock-Adds env msg r p t h in
              let (highest, after, from, id) = adds in
              simp from (state, before, (highest, after, refl, id)))
        ])
]

-- The transactions of every address stay as they are.
abbrev pub Keeps : Processor → Processor → Type 0
Keeps p q = (a : String) → in_flight_of a q ≡ in_flight_of a p

store-Keeps :
    (p : Processor) (from : String) (state : InflightTxnState) (locked : Bool)
    → state.txns_in_flight ≡ in_flight_of from p
    → Keeps p (store p from state locked)
unfolding store in_flight_of
store-Keeps p from state locked same a =
    ap list_of (lookup-put from a state p.inflight_txns) ∙ elim (Bool-cases (from == a)) [
      | inl e ↦ simp e (same ∙ ap (λ b. in_flight_of b p) ((eq_iff from a).0 e))
      | inr e ↦ simp e refl
    ]

finish_add-Keeps :
    (env : Env) (r : Prepared) (p : Processor) (state : InflightTxnState) (c : Chosen) (e : Error)
    → state.txns_in_flight ≡ in_flight_of r.from p
    → (finish_add env r p state c).0 ≡ failed e
    → Keeps p (finish_add env r p state c).1
unfolding finish_add
finish_add-Keeps env r p state bad_nonce e same h = store-Keeps p r.from state true same
finish_add-Keeps env r p state (no_count e' n) e same h = store-Keeps p r.from _ false same
finish_add-Keeps env r p state node_assigned e same h = absurd (cc)
finish_add-Keeps env r p state (assigned n highest) e same h = absurd (cc)

under_lock-Keeps :
    (env : Env) (msg : TransactionCommon) (r : Prepared) (p : Processor) (e : Error)
    → (under_lock env msg r p).0 ≡ failed e
    → Keeps p (under_lock env msg r p).1
unfolding under_lock in_flight_of
under_lock-Keeps env msg r p e = elim (Option-cases (lookup r.from p.inflight_txns)) [
  | inl q ↦ rw (q, under_lock) (finish_add-Keeps env r p empty_state _ e (sym (ap list_of q)))
  | inr (state, q) ↦ rw (q, under_lock) (finish_add-Keeps env r p state _ e (sym (ap list_of q)))
]

-- A request that fails puts nothing in flight.
pub add_inflight_wrapper-Keeps :
    (env : Env) (msg : TransactionCommon) (p : Processor) (e : Error)
    → (add_inflight_wrapper env msg p).0 ≡ failed e
    → Keeps p (add_inflight_wrapper env msg p).1
unfolding add_inflight_wrapper
add_inflight_wrapper-Keeps env msg p e = elim (Result-cases (prepare env p.conf msg)) [
  | inl (e', q) ↦ rw (q, add_inflight_wrapper) (λ h a. refl)
  | inr (r, q) ↦
      rw (q, add_inflight_wrapper)
        (elim (Bool-cases p.locked) [
          | inl held ↦ simp held (λ h. absurd (cc (h)))
          | inr free ↦ simp free (under_lock-Keeps env msg r p e)
        ])
]

pub lookup-store :
    (p : Processor) (from a : String) (state : InflightTxnState)
    → lookup a (store p from state false).inflight_txns
      ≡ (if from == a then some state else lookup a p.inflight_txns)
unfolding store
lookup-store p from a state = lookup-put from a state p.inflight_txns

pub locked-store :
    (p : Processor) (from : String) (state : InflightTxnState)
    → (store p from state false).locked ≡ false
unfolding store
locked-store p from state = refl

-- The address of a transaction has it last, and the lock is free.
pub in_flight_of-AddsTo :
    (p : Processor) (t : InflightTxn) (q : Processor)
    → AddsTo p t.from t q
    → in_flight_of t.from q ≡ in_flight_of t.from p ++ t ∷ []
unfolding in_flight_of track
in_flight_of-AddsTo p t q adds =
    let (state, before, more) = adds in
    let (highest, after, from, id) = more in
    let there : lookup t.from (store p t.from (track state t highest) false).inflight_txns
        ≡ some (track state t highest) =
      lookup-store p t.from t.from _ ∙ simp ((eq_iff t.from t.from).1 refl) refl in
    ap (in_flight_of t.from) after ∙ ap list_of there ∙ ap (λ ts. ts ++ t ∷ []) before

pub locked-AddsTo :
    (p : Processor) (t : InflightTxn) (q : Processor) → AddsTo p t.from t q → q.locked ≡ false
locked-AddsTo p t q adds =
    let (state, before, more) = adds in
    let (highest, after, from, id) = more in
    ap (λ (q : Processor). q.locked) after ∙ locked-store p t.from (track state t highest)
