-- ===== src/Txn/Settles.antt =====
-- What OnMessage of txnprocessor.go leaves behind, however it ends.
use zeroxyz.Prelude.{[], ◌∷◌, ◌++◌, ◌≡◌, refl, ◌⊎◌, inl, inr, Bool-cases, none, some, string_key}
use zeroxyz.Auth.{ok, err}
use zeroxyz.Txn.State.{Processor, InflightTxn, Call, panics, returned, TxnProcessorConf}
use zeroxyz.Txn.Env.{Env}
use zeroxyz.Txn.Cancel.{submit_gap_fill_tx}
use zeroxyz.Txn.Added.{in_flight_of, Keeps}
use zeroxyz.Txn.Flow.{Sending, Ending, stuck, crashed, replied, sending, tracking}

-- The transaction is the last in flight at its address.
abbrev pub IsLast : Processor → InflightTxn → Processor → Type 0
IsLast p t q =
    (u : InflightTxn) × (in_flight_of t.from q ≡ in_flight_of t.from p ++ u ∷ [])
    × (u.id ≡ t.id)
    × (u.nonce ≡ t.nonce)

-- One of the calls that build and send transactions panics.
abbrev pub Panics : Sending → Type 0
Panics io =
    (io.built ≡ panics)
    ⊎ ((io.sent ≡ panics) ⊎ ((io.gap_fill_built ≡ panics) ⊎ (io.gap_fill_sent ≡ panics)))

-- An ending with a reply has left nothing in flight, and one with a goroutine has left the
-- transaction of the goroutine.
abbrev pub Settles : Sending → Processor → Ending × Processor → Type 0
Settles io p (stuck, q) = ⊥
Settles io p (crashed, q) = Panics io
Settles io p (replied r, q) = Keeps p q
Settles io p (sending t, q) = IsLast p t q
Settles io p (tracking t, q) = IsLast p t q

pub Call-cases : {A : Type 0} (c : Call A) → (c ≡ panics) ⊎ ((a : A) × (c ≡ returned a))
Call-cases panics = inl refl
Call-cases (returned a) = inr (a, refl)

-- Where filling a gap panics, one of its calls does.
pub submit_gap_fill_tx-panics :
    (conf : TxnProcessorConf) (io : Sending) (t : InflightTxn)
    → submit_gap_fill_tx conf io.gap_fill_built io.gap_fill_sent t ≡ panics
    → Panics io
unfolding submit_gap_fill_tx
submit_gap_fill_tx-panics conf io t = elim (Bool-cases conf.attempt_gap_fill) [
  | inr off ↦ simp off (λ h. absurd (cc (h)))
  | inl on ↦ simp on (elim (Call-cases io.gap_fill_built) [
    | inl b ↦ λ h. inr (inr (inl b))
    | inr (err e, b) ↦ simp b (λ h. absurd (cc (h)))
    | inr (ok hash, b) ↦ elim (Call-cases io.gap_fill_sent) [
      | inl s ↦ λ h. inr (inr (inr s))
      | inr (none, s) ↦ simp (b, s) (λ h. absurd (cc (h)))
      | inr (some e, s) ↦ simp (b, s) (λ h. absurd (cc (h)))
    ]
  ])
]
