-- ===== src/Eth/Build.antt =====
-- What every transaction of txn.go is built from, and NewNilTX.
use Prim.Native.String.{String, ◌++◌ as append}
use text.Mathlib.Text.{starts_with}
use zeroxyz.Prelude.{ℕ, List, [], ◌∷◌, Option, none, some, false, ◌==◌, string_key, if◌then◌else◌}
use zeroxyz.Prelude.Int.{ℤ, pos}
use zeroxyz.Prelude.Decimal.{decimal_ℤ}
use zeroxyz.Prelude.ParseInt.{parse_int, parse_big}
use zeroxyz.Errors.{ErrorId}
use zeroxyz.Txn.Reply.{uint64_of_int64}
use zeroxyz.Eth.Types.{Run, done, ◌>>=◌, refuse, Library}
use zeroxyz.Eth.Send.{EthTx, TxSigner, Txn}

-- StrToAddress of internal/maidenlaneutils/ethutils.go, to bytes.
unfoldable pub str_to_bytes : Library → String → Run (List ℕ)
str_to_bytes lib s =
    let prefixed = if starts_with s "0x" then s else append "0x" s in
    if s == ""
    then refuse ErrorId.helper_str_to_address_required_field
    else if lib.is_hex_address prefixed
    then done (lib.hex_to_address prefixed)
    else refuse ErrorId.helper_str_to_address_bad_address

-- A number of a message: absent, or in decimal.
abbrev pub number_or : {A : Type 0} → ErrorId → A → (String → Option A) → String → Run A
number_or id default read s =
    if s == "" then done default else elim (read s) [ none ↦ refuse id | some n ↦ done n ]

-- The fields of a message that every transaction takes.
pub record TxFields : Type 0 where
  pub from : String
  pub to : String
  pub nonce : String
  pub value : String
  pub gas : String
  pub gas_price : String

abbrev pub zero_address : List ℕ
zero_address = 0 ∷ 0 ∷ 0 ∷ 0 ∷ 0 ∷ 0 ∷ 0 ∷ 0 ∷ 0 ∷ 0 ∷ 0 ∷ 0 ∷ 0 ∷ 0 ∷ 0 ∷ 0 ∷ 0 ∷ 0 ∷ 0 ∷ 0 ∷ []

abbrev pub optional_address : Library → String → Run (Option (List ℕ))
optional_address lib s = if s == "" then done none else (do a ← str_to_bytes lib s; done (some a))

-- genEthTransaction: the sender and the transaction.
unfoldable pub gen_eth_transaction : Library → TxFields → List ℕ → Run (List ℕ × EthTx)
gen_eth_transaction lib msg bytes = do
  from ← if msg.from == "" then done zero_address else str_to_bytes lib msg.from
  nonce ← number_or ErrorId.transaction_send_bad_nonce (pos 0) (parse_int 64) msg.nonce
  value ← number_or ErrorId.transaction_send_bad_value (pos 0) parse_big msg.value
  gas ← number_or ErrorId.transaction_send_bad_gas (pos 0) (parse_int 64) msg.gas
  price ← number_or ErrorId.transaction_send_bad_gas_price (pos 0) parse_big msg.gas_price
  to ← optional_address lib msg.to
  done (
    from,
    record {
      nonce = uint64_of_int64 nonce;
      to = to;
      value = value;
      gas = uint64_of_int64 gas;
      gas_price = price;
      data_bytes = bytes;
    },
  )

abbrev pub sender : Option TxSigner → String → String
sender none from = from
sender (some s) from = s.address

unfoldable pub new_tx : Option TxSigner → List ℕ × EthTx → Txn
new_tx signer (from, eth_tx) = record {
  node_assign_nonce = false;
  from = from;
  eth_tx = eth_tx;
  hash = "";
  private_from = "";
  private_for = [];
  privacy_group_id = "";
  signer = signer;
}

-- The private fields of a message.
pub record PrivateFields : Type 0 where
  pub private_from : String
  pub private_for : List String
  pub privacy_group_id : String

-- NewNilTX
unfoldable pub new_nil_tx : Library → String → ℤ → Option TxSigner → Run Txn
unfolding gen_eth_transaction new_tx
new_nil_tx lib from nonce signer = do
  built ←
      gen_eth_transaction lib
        (record {
          from = sender signer from;
          to = sender signer from;
          nonce = decimal_ℤ nonce;
          value = "0";
          gas = "90000";
          gas_price = "0";
        })
        []
  done (new_tx signer built)
