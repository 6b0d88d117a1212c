-- ===== src/Txn/Lock.antt =====
-- Who holds `inflightTxnsLock` of txnprocessor.go after a call.
use zeroxyz.Prelude.{
  Option, none, some, Bool, true, false, not, ◌&&◌, ◌≡◌, ◌≢◌, ◌∙◌, refl, inl, inr, arith, ◌==◌,
  string_key, if◌then◌else◌, Option-cases, Bool-cases,
}
use zeroxyz.Prelude.ParseInt.{parse_int}
use zeroxyz.Prelude.Maps.{lookup}
use zeroxyz.Auth.{Result, ok, err, Result-cases}
use zeroxyz.Txn.State.{Processor, TransactionCommon, InflightTxnState, blocked}
use zeroxyz.Txn.Env.{Env, Prepared, prepare}
use zeroxyz.Txn.Add.{
  Chosen, bad_nonce, no_count, node_assigned, assigned, choose_nonce, public_nonce, finish_add,
  under_lock, add_inflight_wrapper, empty_state,
}

-- The requests that reach the nonce and supply one that is no 64-bit number.
abbrev pub is_ok {ℓ} : {A : Type ℓ} → Result A → Bool
is_ok (ok a) = true
is_ok (err e) = false

abbrev pub is_none {ℓ} : {A : Type ℓ} → Option A → Bool
is_none none = true
is_none (some a) = false

abbrev pub has_bad_nonce : TransactionCommon → Bool
has_bad_nonce msg = not (msg.nonce == "") && is_none (parse_int 64 msg.nonce)

is_bad : Chosen → Bool
is_bad bad_nonce = true
is_bad _ = false

is_bad-public_nonce :
    (env : Env) (p : Processor) (msg : TransactionCommon) (r : Prepared) (b : Bool)
    (state : InflightTxnState)
    → is_bad (public_nonce env p.conf msg r b state) ≡ false
unfolding public_nonce is_bad
is_bad-public_nonce env p msg r b state = ground arith

is_bad-choose_nonce :
    (env : Env) (p : Processor) (msg : TransactionCommon) (r : Prepared) (b : Bool)
    (state : InflightTxnState)
    → is_bad (choose_nonce env p.conf msg r b state) ≡ has_bad_nonce msg
unfolding choose_nonce is_bad
is_bad-choose_nonce env p msg r b state = ground (arith, is_bad-public_nonce env p msg r b state)

locked-finish_add :
    (env : Env) (r : Prepared) (p : Processor) (state : InflightTxnState) (c : Chosen)
    → ((finish_add env r p state c).1.locked ≡ is_bad c)
unfolding finish_add is_bad
locked-finish_add env r p state bad_nonce = refl
locked-finish_add env r p state (no_count e h) = refl
locked-finish_add env r p state node_assigned = refl
locked-finish_add env r p state (assigned n h) = refl

locked-under_lock :
    (env : Env) (msg : TransactionCommon) (r : Prepared) (p : Processor)
    → (under_lock env msg r p).1.locked ≡ has_bad_nonce msg
unfolding under_lock
locked-under_lock env msg r p = elim (Option-cases (lookup r.from p.inflight_txns)) [
  | inl e ↦
      rw (e, under_lock)
        (locked-finish_add env r p empty_state _
          ∙ is_bad-choose_nonce env p msg r false empty_state)
  | inr (state, e) ↦
      rw (e, under_lock)
        (locked-finish_add env r p state _ ∙ is_bad-choose_nonce env p msg r true state)
]

-- An unlocked processor is left locked exactly when a request that can be prepared supplies a nonce
-- that is no 64-bit number: that one return of `addInflightWrapper` does not unlock.
pub locked-add_inflight_wrapper :
    (env : Env) (msg : TransactionCommon) (p : Processor)
    → p.locked ≡ false
    → (add_inflight_wrapper env msg p).1.locked
      ≡ (is_ok (prepare env p.conf msg) && has_bad_nonce msg)
unfolding add_inflight_wrapper
locked-add_inflight_wrapper env msg p free = elim (Result-cases (prepare env p.conf msg)) [
  | inl (e, q) ↦ rw (q, add_inflight_wrapper) free
  | inr (r, q) ↦
      rw (q, add_inflight_wrapper) (rw (free, if◌then◌else◌) (locked-under_lock env msg r p))
]

conf-finish_add :
    (env : Env) (r : Prepared) (p : Processor) (state : InflightTxnState) (c : Chosen)
    → (finish_add env r p state c).1.conf ≡ p.conf
unfolding finish_add
conf-finish_add env r p state bad_nonce = refl
conf-finish_add env r p state (no_count e h) = refl
conf-finish_add env r p state node_assigned = refl
conf-finish_add env r p state (assigned n h) = refl

conf-under_lock :
    (env : Env) (msg : TransactionCommon) (r : Prepared) (p : Processor)
    → (under_lock env msg r p).1.conf ≡ p.conf
unfolding under_lock
conf-under_lock env msg r p = elim (Option-cases (lookup r.from p.inflight_txns)) [
  | inl e ↦ rw (e, under_lock) (conf-finish_add env r p empty_state _)
  | inr (state, e) ↦ rw (e, under_lock) (conf-finish_add env r p state _)
]

waits :
    (env : Env) (msg : TransactionCommon) (q : Processor)
    → q.locked ≡ true
    → is_ok (prepare env q.conf msg) ≡ true
    → add_inflight_wrapper env msg q ≡ (blocked, q)
unfolding add_inflight_wrapper
waits env msg q held ready = ground arith

pub conf-add_inflight_wrapper :
    (env : Env) (msg : TransactionCommon) (p : Processor)
    → (add_inflight_wrapper env msg p).1.conf ≡ p.conf
unfolding add_inflight_wrapper
conf-add_inflight_wrapper env msg p = elim (Result-cases (prepare env p.conf msg)) [
  | inl (e, q) ↦ rw (q, add_inflight_wrapper)
  | inr (r, q) ↦
      rw (q, add_inflight_wrapper)
        (elim (Bool-cases p.locked) [
          | inl held ↦ simp held
          | inr free ↦ simp free (conf-under_lock env msg r p)
        ])
]

-- After a request that an unlocked processor can prepare and that supplies a nonce that is no 64-bit
-- number, every later request that can be prepared, for any address, waits for ever.
pub bad_nonce_blocks :
    (env env' : Env) (bad msg : TransactionCommon) (p : Processor)
    → p.locked ≡ false
    → is_ok (prepare env p.conf bad) ≡ true
    → has_bad_nonce bad ≡ true
    → is_ok (prepare env' p.conf msg) ≡ true
    → add_inflight_wrapper env' msg (add_inflight_wrapper env bad p).1
      ≡ (blocked, (add_inflight_wrapper env bad p).1)
bad_nonce_blocks env env' bad msg p free prepared wrong ready =
    let q = (add_inflight_wrapper env bad p).1 in
    let held : q.locked ≡ true =
      locked-add_inflight_wrapper env bad p free ∙ ground (arith, prepared, wrong) in
    waits env' msg q held (rw (conf-add_inflight_wrapper env bad p) ready)

finish_add-ne-blocked :
    (env : Env) (r : Prepared) (p : Processor) (state : InflightTxnState) (c : Chosen)
    → (finish_add env r p state c).0 ≢ blocked
unfolding finish_add
finish_add-ne-blocked env r p state bad_nonce h = absurd (cc)
finish_add-ne-blocked env r p state (no_count e n) h = absurd (cc)
finish_add-ne-blocked env r p state node_assigned h = absurd (cc)
finish_add-ne-blocked env r p state (assigned n highest) h = absurd (cc)

under_lock-ne-blocked :
    (env : Env) (msg : TransactionCommon) (r : Prepared) (p : Processor)
    → (under_lock env msg r p).0 ≢ blocked
unfolding under_lock
under_lock-ne-blocked env msg r p = elim (Option-cases (lookup r.from p.inflight_txns)) [
  | inl e ↦ rw (e, under_lock) (finish_add-ne-blocked env r p empty_state _)
  | inr (state, e) ↦ rw (e, under_lock) (finish_add-ne-blocked env r p state _)
]

pub add_inflight_wrapper-ne-blocked :
    (env : Env) (msg : TransactionCommon) (p : Processor)
    → p.locked ≡ false
    → (add_inflight_wrapper env msg p).0 ≢ blocked
unfolding add_inflight_wrapper
add_inflight_wrapper-ne-blocked env msg p free = elim (Result-cases (prepare env p.conf msg)) [
  | inl (e, q) ↦ rw (q, add_inflight_wrapper) (λ h. absurd (cc (h)))
  | inr (r, q) ↦ rw (q, add_inflight_wrapper) (simp free (under_lock-ne-blocked env msg r p))
]
