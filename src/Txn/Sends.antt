-- ===== src/Txn/Sends.antt =====
-- What sendAndTrackMining of txnprocessor.go leaves when a goroutine runs it, on the processor as it
-- is by then.
use zeroxyz.Prelude.{
  String, List, ◌∷◌, ◌++◌, none, some, true, false, ◌≡◌, refl, ap, ◌∙◌, inl, inr, All, Bool-cases,
  ◌==◌, string_key, if◌then◌else◌,
}
use zeroxyz.Prelude.Maps.{lookup}
use zeroxyz.Errors.{Error}
use zeroxyz.Txn.State.{Processor, InflightTxn, InflightTxnState, Call, panics, returned}
use zeroxyz.Txn.Cancel.{cancel_in_flight}
use zeroxyz.Txn.Added.{in_flight_of, list_of}
use zeroxyz.Txn.Gaps.{HasOtherId, lookup-cancel_in_flight}
use zeroxyz.Txn.Undo.{list_of-remaining}
use zeroxyz.Txn.Replies.{cancel_in_flight-ne-blocked}
use zeroxyz.Txn.Flow.{
  Sending, Ending, stuck, crashed, replied, sending, tracking, gap_filled, send_failed,
  send_and_track_mining,
}
use zeroxyz.Txn.Settles.{Panics, Call-cases, submit_gap_fill_tx-panics}

-- The transactions in flight are those of before, but for the address, which has the given ones.
abbrev pub HasOnly : String → List InflightTxn → Processor → Processor → Type 0
HasOnly from ts p q = (a : String) → in_flight_of a q ≡ (if from == a then ts else in_flight_of a p)

-- The transaction is tracked and the processor as it was, or it is answered and no longer in flight.
abbrev pub Sends :
    Sending → InflightTxn → List InflightTxn → Processor → Ending × Processor → Type 0
Sends io t others p (stuck, q) = ⊥
Sends io t others p (crashed, q) = Panics io
Sends io t others p (replied r, q) = HasOnly t.from others p q
Sends io t others p (sending u, q) = ⊥
Sends io t others p (tracking u, q) = (u ≡ t) × (q ≡ p)

gap_filled-Sends :
    (io : Sending) (t : InflightTxn) (others : List InflightTxn) (p q : Processor) (e : Error)
    (c : Call InflightTxn)
    → (c ≡ panics → Panics io)
    → HasOnly t.from others p q
    → Sends io t others p (gap_filled e c, q)
unfolding gap_filled
gap_filled-Sends io t others p q e panics h k = h refl
gap_filled-Sends io t others p q e (returned u) h k = k

module _ (io : Sending) (t : InflightTxn) (others : List InflightTxn) (p : Processor)
    (free : p.locked ≡ false)
    (removed : HasOnly t.from others p (cancel_in_flight t true p).1) where
  send_failed-Sends :
      (e : Error)
      → Sends io t others p
          (send_failed io e t p.conf (cancel_in_flight t true p).0, (cancel_in_flight t true p).1)
  unfolding send_failed
  send_failed-Sends e =
      let (b, q) = cancel_in_flight-ne-blocked t true p free in
      simp q (elim (Bool-cases b) [
        | inl gap ↦ simp gap (
            gap_filled-Sends io t others p (cancel_in_flight t true p).1 e _
              (submit_gap_fill_tx-panics p.conf io t) removed)
        | inr gap ↦ simp gap (
            gap_filled-Sends io t others p (cancel_in_flight t true p).1 e (returned t)
              (λ h. absurd (cc (h))) removed)
      ])

  send_and_track_mining-Sends : Sends io t others p (send_and_track_mining io t p)
  unfolding send_and_track_mining
  send_and_track_mining-Sends = elim (Call-cases io.sent) [
    | inl q ↦ simp (q, send_and_track_mining) (inr (inl refl))
    | inr (none, q) ↦ simp (q, send_and_track_mining) (refl, refl)
    | inr (some e, q) ↦ simp (q, send_and_track_mining) (send_failed-Sends e)
  ]

-- When a transaction that is in flight at its address is sent on an unlocked processor, at once or by
-- a goroutine after other messages have come in, then Send, or a call that fills the gap, panics, or
-- a goroutine tracks the transaction and the processor is as it was, or it is answered: then its
-- address has in flight those before it, which have other ids, and those after it, in order, and
-- every other address what it had.
pub send_and_track_mining-settles :
    (io : Sending) (t : InflightTxn) (p : Processor) (state : InflightTxnState)
    (before : List InflightTxn) (u : InflightTxn) (after : List InflightTxn)
    → p.locked ≡ false
    → lookup t.from p.inflight_txns ≡ some state
    → state.txns_in_flight ≡ before ++ u ∷ after
    → All (HasOtherId t.id) before
    → u.id ≡ t.id
    → Sends io t (before ++ after) p (send_and_track_mining io t p)
unfolding in_flight_of
send_and_track_mining-settles io t p state before u after free there parts others same =
    send_and_track_mining-Sends io t (before ++ after) p free (λ a.
      ap list_of
        (lookup-cancel_in_flight t true p state a before u after free there parts others same)
      ∙ elim (Bool-cases (t.from == a)) [
        | inl e ↦ simp e (list_of-remaining state (before ++ after))
        | inr e ↦ simp e refl
      ])
