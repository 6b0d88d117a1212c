-- ===== src/Txn/Gaps.antt =====
-- What `cancelInFlight` of txnprocessor.go removes, and when it asks for a gap to be filled.
use zeroxyz.Prelude.{
  ℕ, eqb, ◌++◌, All, ◌∙◌, String, List, [], ◌∷◌, Option, none, some, Bool, true, false, not, ◌&&◌,
  ◌≡◌, refl, ap, ◌⊎◌, inl, inr, ◌↔◌, arith, ◌==◌, string_key, if◌then◌else◌, Any,
}
use zeroxyz.Prelude.Int.{ℤ, pos, negsuc, ltb_ℤ, ◌<ℤ◌}
use zeroxyz.Prelude.Maps.{Map, lookup, lookup-put, lookup-delete}
use zeroxyz.Txn.State.{InflightTxn, InflightTxnState, Processor, done}
use zeroxyz.Txn.Cancel.{remove_id, higher_nonce, put_back, cancel_in_flight}

abbrev pub remaining : InflightTxnState → List InflightTxn → Option InflightTxnState
remaining state [] = none
remaining state (t ∷ ts) = some (record state { txns_in_flight = t ∷ ts })

lookup-put_back :
    (from a : String) (state : InflightTxnState) (ts : List InflightTxn)
    (m : Map String InflightTxnState)
    → lookup a (put_back from state ts m) ≡ (if from == a then remaining state ts else lookup a m)
unfolding put_back
lookup-put_back from a state [] m = lookup-delete from a m
lookup-put_back from a state (t ∷ ts) m = lookup-put from a _ m

-- A transaction that would wait behind a gap at the nonce `own`.
abbrev pub WaitsBehind : ℤ → InflightTxn → Type 0
WaitsBehind own t = (own <ℤ t.nonce) × (pos 0 <ℤ t.nonce)

abbrev higher : ℤ → ℤ → ℤ → ℤ
higher own highest n = if ltb_ℤ own n && ltb_ℤ highest n then n else highest

higher_from :
    (own highest n : ℤ)
    → pos 0 <ℤ higher own highest n
    → (pos 0 <ℤ highest) ⊎ ((own <ℤ n) × (pos 0 <ℤ n))
higher_from own highest n h = ground arith

higher_keeps : (own highest n : ℤ) → pos 0 <ℤ highest → pos 0 <ℤ higher own highest n
higher_keeps own highest n h = ground arith

higher_takes : (own highest n : ℤ) → own <ℤ n → pos 0 <ℤ n → pos 0 <ℤ higher own highest n
higher_takes own highest n h k = ground arith

higher_nonce_iff :
    (own highest : ℤ) (ts : List InflightTxn)
    → (ltb_ℤ (pos 0) (higher_nonce own highest ts) ≡ true)
      ↔ ((pos 0 <ℤ highest) ⊎ Any (WaitsBehind own) ts)
unfolding higher_nonce
higher_nonce_iff own highest [] =
    (λ h. inl (ground arith), λ h. elim h [ inl q ↦ ground arith | inr q ↦ absurd q ])
higher_nonce_iff own highest (t ∷ ts) =
    let ih = higher_nonce_iff own (higher own highest t.nonce) ts in
    (
      λ h. elim (ih.0 h) [
        | inl q ↦ elim (higher_from own highest t.nonce q) [ inl a ↦ inl a | inr b ↦ inr (inl b) ]
        | inr q ↦ inr (inr q)
      ],
      λ h. ih.1 (elim h [
        | inl q ↦ inl (higher_keeps own highest t.nonce q)
        | inr (inl q) ↦ inl (higher_takes own highest t.nonce q.0 q.1)
        | inr (inr q) ↦ inr q
      ]),
    )

gap_decision :
    (gap node_assign : Bool) (own : ℤ) (ts : List InflightTxn)
    → (ltb_ℤ (pos 0) (if gap && not node_assign then higher_nonce own (negsuc 0) ts else negsuc 0)
        ≡ true)
      ↔ ((gap ≡ true) × (node_assign ≡ false) × Any (WaitsBehind own) ts)
gap_decision true false own ts =
    let ih = higher_nonce_iff own (negsuc 0) ts in
    (
      λ h. (refl, refl, elim (ih.0 h) [ inl q ↦ absurd (omega (arith, q)) | inr q ↦ q ]),
      λ h. ih.1 (inr h.2),
    )
gap_decision true true own ts = (λ h. absurd (cc), λ h. absurd (cc (h.1)))
gap_decision false node_assign own ts = (λ h. absurd (cc), λ h. absurd (cc (h.0)))

-- In an unlocked processor the cancellation of a transaction asks for a gap to be filled exactly
-- when it may have left one, its nonce was not left to the node, and another transaction of its
-- address that is still in flight has a nonce above its own and above 0.
pub cancel_in_flight_gap :
    (inflight : InflightTxn) (gap : Bool) (p : Processor) (state : InflightTxnState)
    → p.locked ≡ false
    → lookup inflight.from p.inflight_txns ≡ some state
    → ((cancel_in_flight inflight gap p).0 ≡ done true) ↔ (
        (gap ≡ true)
        × (inflight.node_assign_nonce ≡ false)
        × Any (WaitsBehind inflight.nonce) (remove_id inflight.id state.txns_in_flight))
unfolding cancel_in_flight
cancel_in_flight_gap inflight gap p state free there =
    let d =
      gap_decision gap inflight.node_assign_nonce inflight.nonce
        (remove_id inflight.id state.txns_in_flight) in
    simp free (rw (there, cancel_in_flight) (λ h. d.0 (ground (arith, h)), λ h. ap done (d.1 h)))

pub lookup-put_back_removed :
    (inflight : InflightTxn) (gap : Bool) (p : Processor) (state : InflightTxnState) (a : String)
    → p.locked ≡ false
    → lookup inflight.from p.inflight_txns ≡ some state
    → lookup a (cancel_in_flight inflight gap p).1.inflight_txns ≡ (
        if inflight.from == a
        then remaining state (remove_id inflight.id state.txns_in_flight)
        else lookup a p.inflight_txns)
unfolding cancel_in_flight
lookup-put_back_removed inflight gap p state a free there = simp free (
    rw (there, cancel_in_flight)
      (lookup-put_back inflight.from a state (remove_id inflight.id state.txns_in_flight)
        p.inflight_txns))

abbrev pub HasOtherId : ℕ → InflightTxn → Type 0
HasOtherId id t = eqb t.id id ≡ false

remove_id-append :
    (id : ℕ) (before : List InflightTxn) (t : InflightTxn) (after : List InflightTxn)
    → All (HasOtherId id) before
    → t.id ≡ id
    → remove_id id (before ++ t ∷ after) ≡ before ++ after
unfolding remove_id
remove_id-append id [] t after h e = ground (arith, e)
remove_id-append id (u ∷ before) t after h e =
    simp (h.0) (ap (λ ts. u ∷ ts) (remove_id-append id before t after h.1 e))

-- What an unlocked processor knows of an address after the cancellation of a transaction in flight:
-- the address of the transaction keeps the transactions before it, which have other ids, and those
-- after it, in order, with the highest nonce as it was, and loses its entry when none is left; every
-- other address keeps what it had.
pub lookup-cancel_in_flight :
    (inflight : InflightTxn) (gap : Bool) (p : Processor) (state : InflightTxnState) (a : String)
    (before : List InflightTxn) (t : InflightTxn) (after : List InflightTxn)
    → p.locked ≡ false
    → lookup inflight.from p.inflight_txns ≡ some state
    → state.txns_in_flight ≡ before ++ t ∷ after
    → All (HasOtherId inflight.id) before
    → t.id ≡ inflight.id
    → lookup a (cancel_in_flight inflight gap p).1.inflight_txns
      ≡ (if inflight.from == a then remaining state (before ++ after) else lookup a p.inflight_txns)
lookup-cancel_in_flight inflight gap p state a before t after free there parts others same =
    lookup-put_back_removed inflight gap p state a free there
    ∙ ap (λ ts. if inflight.from == a then remaining state ts else lookup a p.inflight_txns)
        (ap (remove_id inflight.id) parts ∙ remove_id-append inflight.id before t after others same)
