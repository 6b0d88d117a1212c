-- ===== src/Eth/Send.antt =====
-- send.go: the call that submits a transaction, the estimate of its gas, and eth_call with the
-- decoding of a revert.
use Prim.Native.String.{slice, len}
use text.Mathlib.Text.{starts_with}
use zeroxyz.Prelude.{
  ℕ, ◌+◌, ◌*◌, ◌%◌, ◌^◌, String, List, [], Option, none, some, Bool, true, false, not, ◌&&◌, ◌||◌,
  ltb, eqb, ◌==◌, string_key, if◌then◌else◌,
}
use zeroxyz.Prelude.Int.{ℤ}
use zeroxyz.Errors.{ErrorId, Error, errorf}
use zeroxyz.Auth.{Result, ok, err}
use zeroxyz.Txn.Env.{nonempty}
use zeroxyz.Eth.Hex.{read_hex, decodes}
use zeroxyz.Eth.Types.{Run, done, panicked, ◌>>=◌, refuse, Library}

-- types.Transaction: without `to` it creates a contract.
pub record EthTx : Type 0 where
  pub nonce : ℕ
  pub to : Option (List ℕ)
  pub value : ℤ
  pub gas : ℕ
  pub gas_price : ℤ
  pub data_bytes : List ℕ

-- TXSigner
pub record TxSigner : Type 0 where
  pub address : String
  pub sign : EthTx → Result (List ℕ)

pub record Txn : Type 0 where
  pub node_assign_nonce : Bool
  pub from : List ℕ
  pub eth_tx : EthTx
  pub hash : String
  pub private_from : String
  pub private_for : List String
  pub privacy_group_id : String
  pub signer : Option TxSigner

-- SendTXArgs; addresses are kept as bytes.
pub record SendTxArgs : Type 0 where
  pub nonce : Option ℕ
  pub from : List ℕ
  pub to : Option (List ℕ)
  pub gas : Option ℕ
  pub gas_price : ℤ
  pub value : ℤ
  pub data_bytes : List ℕ
  pub private_from : String
  pub private_for : List String
  pub privacy_group_id : String
  pub restriction : String

-- The JSON/RPC calls that submit a transaction, with their parameter.
pub data Request : Type 0 where
  eth_send_transaction : SendTxArgs → Request
  eea_send_transaction : SendTxArgs → Request
  eth_send_raw_transaction : List ℕ → Request

-- What the node answers: the hash with an error or none, the gas of an estimate, and the text of a
-- call. `scale_gas` is the product with 1.2 in floating point, and `undefined_length` what big.Int
-- holds after a text that is no number in base 16.
pub record Node : Type 0 where
  pub submit : Request → String × Option Error
  pub estimate_gas : SendTxArgs → Result ℕ
  pub call : SendTxArgs → String → Result String
  pub scale_gas : ℕ → ℕ
  pub undefined_length : String → ℕ

-- The arguments that Send and Call begin with.
unfoldable pub tx_args : Txn → SendTxArgs
tx_args tx = record {
  nonce = none;
  from = tx.from;
  to = tx.eth_tx.to;
  gas = none;
  gas_price = tx.eth_tx.gas_price;
  value = tx.eth_tx.value;
  data_bytes = tx.eth_tx.data_bytes;
  private_from = "";
  private_for = [];
  privacy_group_id = "";
  restriction = "";
}

-- The arguments of submitTXtoNode with the fields of a private transaction, and whether it is one.
unfoldable pub private_args : Txn → SendTxArgs → Result (Bool × SendTxArgs)
private_args tx args =
    if not (tx.privacy_group_id == "")
    then if tx.private_from == ""
      then err (errorf ErrorId.transaction_send_missing_private_from_orion)
      else ok (
        true,
        record args {
          private_from = tx.private_from;
          privacy_group_id = tx.privacy_group_id;
          restriction = "restricted";
        },
      )
    else if nonempty tx.private_for
    then ok (true, record args { private_from = tx.private_from; private_for = tx.private_for })
    else ok (false, args)

unfoldable pub raw_request : Result (List ℕ) → Result Request
raw_request (err e) = err e
raw_request (ok bytes) = ok (eth_send_raw_transaction bytes)

-- With a signer of this process, or with none.
unfoldable pub signer_request : Txn → Bool → SendTxArgs → Option TxSigner → Result Request
unfolding raw_request
signer_request tx is_private args (some s) =
    if is_private
    then err (errorf ErrorId.transaction_send_private_tx_with_external_signer)
    else raw_request (s.sign tx.eth_tx)
signer_request tx is_private args none = ok (
    if not (tx.privacy_group_id == "")
    then eea_send_transaction args
    else eth_send_transaction args)

unfoldable pub chosen_request : Txn → Result (Bool × SendTxArgs) → Result Request
unfolding signer_request
chosen_request tx (err e) = err e
chosen_request tx (ok (is_private, args)) = signer_request tx is_private args tx.signer

-- The call that submitTXtoNode makes, or the error that it returns without one.
unfoldable pub request_of : Txn → SendTxArgs → Result Request
unfolding chosen_request private_args
request_of tx args =
    let nonce : Option ℕ = if tx.node_assign_nonce then none else some tx.eth_tx.nonce in
    chosen_request tx (private_args tx (record args { nonce = nonce }))

unfoldable pub submit_tx_to_node : Node → Txn → SendTxArgs → String × Option Error
unfolding request_of
submit_tx_to_node node tx args = elim (request_of tx args) [
  | err e ↦ ("", some e)
  | ok request ↦ node.submit request
]

-- The length that a revert declares, of a text of 64 places.
unfoldable pub error_string_len : Node → String → ℕ
unfolding read_hex
error_string_len node s = elim (read_hex 0 (slice s 74 138)) [
  | none ↦ node.undefined_length (slice s 74 138)
  | some n ↦ n
]

-- Uint64()*2 + 138 on uint64, with its wrap-around.
unfoldable pub hex_string_end : Node → String → ℕ
unfolding error_string_len
hex_string_end node s = (error_string_len node s % 2 ^ 64 * 2 + 138) % 2 ^ 64

unfoldable pub is_revert : String → Bool
is_revert s = starts_with s "0x08c379a0" && ltb 138 (len s)

-- The error in a revert: the text from place 138 to the stated end, or to the end of what there is.
unfoldable pub revert_reply : Node → String → Run (Option (List ℕ))
unfolding hex_string_end decodes
revert_reply node s =
    let stated = hex_string_end node s in
    let last = if ltb (len s) stated then len s else stated in
    if ltb last 138
    then panicked
    else if decodes (slice s 138 last)
    then refuse ErrorId.transaction_send_call_failed_revert_message
    else refuse ErrorId.transaction_send_call_failed_revert_no_message

-- What Call makes of the text that the node returned; `none` is no result.
unfoldable pub call_reply : Library → Node → String → Run (Option (List ℕ))
unfolding is_revert revert_reply
call_reply lib node s =
    if eqb (len s) 0 || (s == "0x")
    then done none
    else if is_revert s
    then revert_reply node s
    else done (some (lib.from_hex s))

unfoldable pub call : Library → Node → Txn → String → Run (Option (List ℕ))
unfolding call_reply tx_args
call lib node tx block_number = elim (node.call (tx_args tx) block_number) [
  | err e ↦ refuse ErrorId.transaction_send_call_failed_no_revert
  | ok s ↦ call_reply lib node s
]

-- calculateGas: when the estimate fails the call is made for its error.
unfoldable pub calculate_gas : Library → Node → Txn → Run ℕ
unfolding call
calculate_gas lib node tx = elim (node.estimate_gas (tx_args tx)) [
  | ok gas ↦ done (node.scale_gas gas % 2 ^ 64)
  | err e ↦ do
    called ← call lib node tx "latest"
    refuse ErrorId.transaction_send_gas_estimate_failed
]

-- Send: the transaction with its gas and its hash, and the error of the node.
unfoldable pub send : Library → Node → Txn → Run (Txn × Option Error)
unfolding calculate_gas submit_tx_to_node
send lib node tx = do
  gas ← if eqb tx.eth_tx.gas 0 then calculate_gas lib node tx else done tx.eth_tx.gas
  let sized = record tx { eth_tx = record tx.eth_tx { gas = gas } } in
      let answer = submit_tx_to_node node sized (record (tx_args tx) { gas = some gas }) in
      done (record sized { hash = answer.0 }, answer.1)
