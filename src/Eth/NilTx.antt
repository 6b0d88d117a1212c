-- ===== src/Eth/NilTx.antt =====
-- The transaction that fills a gap of nonces.
use zeroxyz.Prelude.{
  ℕ, String, List, [], Option, none, some, false, ◌≡◌, ◌≢◌, refl, ap, inl, inr, Bool-cases, ◌==◌,
  string_key, eq_iff, if◌then◌else◌,
}
use zeroxyz.Prelude.Int.{ℤ, pos, negsuc, ◌≤ℤ◌}
use zeroxyz.Prelude.Decimal.{decimal_ℤ}
use zeroxyz.Prelude.ParseInt.{parse_int, parse_big}
use zeroxyz.Prelude.ReadBack.{parse_int-decimal_ℤ}
use zeroxyz.Txn.Reply.{uint64_of_int64}
use zeroxyz.Eth.Types.{done, Library}
use zeroxyz.Eth.Send.{TxSigner}
use zeroxyz.Eth.Build.{str_to_bytes, sender, new_tx, gen_eth_transaction, new_nil_tx}

parse_int_empty : parse_int 64 "" ≡ none
unfolding parse_int
parse_int_empty = refl

nothing : parse_big "0" ≡ some (pos 0)
unfolding parse_big
nothing = refl

nil_gas : parse_int 64 "90000" ≡ some (pos 90000)
unfolding parse_int
nil_gas = refl

-- A number that is read back is not the empty text.
decimal_ℤ_nonempty : (z : ℤ) → parse_int 64 (decimal_ℤ z) ≡ some z → (decimal_ℤ z == "") ≡ false
decimal_ℤ_nonempty z h = elim (Bool-cases (decimal_ℤ z == "")) [
  | inr e ↦ e
  | inl e ↦
      let empty = (eq_iff (decimal_ℤ z) "").0 e in
      absurd (cc (h, parse_int_empty, ap (parse_int 64) empty))
]

-- For a nonce of 64 bits and a sender whose address is read, NewNilTX builds a transaction that goes
-- from the address of the signer, or else from the one given, to the same address, with the nonce,
-- no value, 90000 gas, no price and no data.
pub new_nil_tx-decimal_ℤ :
    (lib : Library) (from : String) (nonce : ℤ) (signer : Option TxSigner) (a : List ℕ)
    → negsuc 9223372036854775807 ≤ℤ nonce
    → nonce ≤ℤ pos 9223372036854775807
    → sender signer from ≢ ""
    → str_to_bytes lib (sender signer from) ≡ done a
    → new_nil_tx lib from nonce signer
      ≡ done (
          new_tx signer (
            a,
            record {
              nonce = uint64_of_int64 nonce;
              to = some a;
              value = pos 0;
              gas = 90000;
              gas_price = pos 0;
              data_bytes = [];
            },
          ))
unfolding new_nil_tx gen_eth_transaction uint64_of_int64
new_nil_tx-decimal_ℤ lib from nonce signer a lo hi ne h =
    let read = parse_int-decimal_ℤ nonce lo hi in
    elim (Bool-cases (sender signer from == "")) [
      | inl e ↦ absurd (ne ((eq_iff (sender signer from) "").0 e))
      | inr e ↦
          simp (e, if◌then◌else◌, h, decimal_ℤ_nonempty nonce read, read, nothing, nil_gas) refl
    ]
