-- ===== src/Txn/Cancel.antt =====
-- `cancelInFlight` and `submitGapFillTX` of txnprocessor.go.
use zeroxyz.Prelude.{
  ℕ, String, List, [], ◌∷◌, Option, none, some, Bool, true, false, not, ◌&&◌, eqb, string_key,
  if◌then◌else◌,
}
use zeroxyz.Prelude.Int.{ℤ, pos, negsuc, ltb_ℤ}
use zeroxyz.Prelude.Maps.{Map, lookup, put, delete}
use zeroxyz.Errors.{Error}
use zeroxyz.Auth.{Result, ok, err}
use zeroxyz.Txn.State.{
  InflightTxn, TxnProcessorConf, InflightTxnState, Processor, Outcome, blocked, done, Call, panics,
  returned,
}

-- The first transaction with that id is cut out.
unfoldable pub remove_id : ℕ → List InflightTxn → List InflightTxn
remove_id id [] = []
remove_id id (t ∷ ts) = let rest = remove_id id ts in if eqb t.id id then ts else t ∷ rest

-- The highest nonce above `own` and above `highest`, or `highest` if there is none.
unfoldable pub higher_nonce : ℤ → ℤ → List InflightTxn → ℤ
higher_nonce own highest [] = highest
higher_nonce own highest (t ∷ ts) =
    higher_nonce own (if ltb_ℤ own t.nonce && ltb_ℤ highest t.nonce then t.nonce else highest) ts

unfoldable pub put_back :
    String
    → InflightTxnState
    → List InflightTxn
    → Map String InflightTxnState
    → Map String InflightTxnState
put_back from state [] m = delete from m
put_back from state (t ∷ ts) m = put from (record state { txns_in_flight = t ∷ ts }) m

-- The result is whether a gap has to be filled.
unfoldable pub cancel_in_flight : InflightTxn → Bool → Processor → Outcome Bool × Processor
unfolding put_back
cancel_in_flight inflight gap_potential p =
    if p.locked then (blocked, p) else elim (lookup inflight.from p.inflight_txns) [
      | none ↦ (done false, p)
      | some state ↦
          let left = remove_id inflight.id state.txns_in_flight in
          let highest =
            if gap_potential && not inflight.node_assign_nonce
            then higher_nonce inflight.nonce (negsuc 0) left
            else negsuc 0 in
          (
            done (ltb_ℤ (pos 0) highest),
            record p { inflight_txns = put_back inflight.from state left p.inflight_txns },
          )
    ]

abbrev gap_fill_sent : String → Call (Option Error) → InflightTxn → Call InflightTxn
gap_fill_sent hash panics inflight = panics
gap_fill_sent hash (returned none) inflight =
    returned (record inflight { gap_fill_tx_hash = hash; gap_fill_succeeded = true })
gap_fill_sent hash (returned (some e)) inflight =
    returned (record inflight { gap_fill_tx_hash = hash; gap_fill_succeeded = false })

-- `built` is the hash of the signed transaction that NewNilTX makes, `sent` what Send returns.
unfoldable pub submit_gap_fill_tx :
    TxnProcessorConf → Call (Result String) → Call (Option Error) → InflightTxn → Call InflightTxn
submit_gap_fill_tx conf built sent inflight =
    if conf.attempt_gap_fill
    then elim built [
      | panics ↦ panics
      | returned (err e) ↦ returned inflight
      | returned (ok hash) ↦ gap_fill_sent hash sent inflight
    ]
    else returned inflight
