-- ===== src/Eth/Messages.antt =====
-- The transactions that txn.go builds from the parameters of messages, and the block that CallMethod
-- asks about.
use Prim.Native.String.{String, slice, len}
use text.Mathlib.Text.{starts_with}
use zeroxyz.Prelude.{
  ℕ, List, [], ◌++◌, Option, none, some, Bool, true, false, ◌&&◌, ◌||◌, ltb, ◌==◌, string_key,
  if◌then◌else◌,
}
use zeroxyz.Prelude.ParseInt.{parse_big}
use zeroxyz.Errors.{ErrorId}
use zeroxyz.Auth.{ok, err}
use zeroxyz.Eth.Types.{Param, Value, Argument, Run, done, fails, ◌>>=◌, refuse, Library}
use zeroxyz.Eth.Params.{flatten_params, generate_typed_args}
use zeroxyz.Eth.Hex.{read_hex}
use zeroxyz.Eth.Send.{TxSigner, Txn, Node, call}
use zeroxyz.Eth.Outputs.{Output, process_rlp_bytes}
use zeroxyz.Prelude.Maps.{Map}
use zeroxyz.Eth.Methods.{ElementMarshaling, Method, Abi, abi_method}
use zeroxyz.Eth.Build.{TxFields, gen_eth_transaction, sender, new_tx, PrivateFields}

module _ {Source : Type 0} (lib : Library) (abi : Abi Source) where
  unfoldable pub packed : ErrorId → List Argument → List Value → Run (List ℕ)
  packed id inputs values = elim (abi.pack inputs values) [
    | err e ↦ refuse id
    | ok bytes ↦ done bytes
  ]

  -- buildTX: the arguments are packed for the inputs that generateTypedArgs leaves.
  unfoldable pub build_tx : Option TxSigner → TxFields → Method → List Param → Run Txn
  unfolding generate_typed_args packed gen_eth_transaction new_tx
  build_tx signer msg method params = do
    typed ← generate_typed_args lib params method.inputs
    bytes ← packed ErrorId.transaction_send_method_pack_args typed.1 typed.0
    built ←
        gen_eth_transaction lib (record msg { from = sender signer msg.from }) (method.id ++ bytes)
    done (new_tx signer built)

  -- A method named in the message, with the inline types of the parameters, or none at all.
  unfoldable pub named_method : String → List Param → Run (Method × List Param)
  unfolding flatten_params
  named_method name params =
      if name == "" then refuse ErrorId.transaction_send_missing_method else (do
        f ← flatten_params lib params [] true
        elim f.error [
          | some e ↦ fails e
          | none ↦ done (
            record {
              raw_name = name;
              id = abi.method_id name f.inputs;
              inputs = f.inputs;
              outputs = [];
            },
            f.params,
          )
        ])

  unfoldable pub send_method :
      Option ElementMarshaling → String → List Param → Run (Method × List Param)
  unfolding named_method abi_method
  send_method none name params = named_method name params
  send_method (some m) name params =
      if m.name == ""
      then named_method name params
      else (do method ← abi_method abi m; done (method, params))

  -- NewSendTxn: the privacy group of the message is not kept.
  unfoldable pub new_send_txn :
      Option TxSigner
      → TxFields
      → PrivateFields
      → Option ElementMarshaling
      → String
      → List Param
      → Run Txn
  unfolding send_method build_tx
  new_send_txn signer msg private method name params = do
    chosen ← send_method method name params
    tx ← build_tx signer msg chosen.0 chosen.1
    done (record tx { private_from = private.private_from; private_for = private.private_for })

  unfoldable pub compiled_code :
      Option (List ℕ × List ElementMarshaling)
      → Option Source
      → Run (List ℕ × List ElementMarshaling)
  compiled_code (some compiled) source = done compiled
  compiled_code none (some source) = elim (abi.compile source) [
    | err e ↦ fails e
    | ok compiled ↦ done compiled
  ]
  compiled_code none none = refuse ErrorId.deploy_transaction_missing_code

  -- NewContractDeployTxn, with the byte code and the ABI if the message has both, and the Solidity
  -- source if it has one.
  unfoldable pub new_contract_deploy_txn :
      Option TxSigner
      → TxFields
      → PrivateFields
      → Option (List ℕ × List ElementMarshaling)
      → Option Source
      → List Param
      → Run Txn
  unfolding compiled_code generate_typed_args packed gen_eth_transaction new_tx
  new_contract_deploy_txn signer msg private compiled source params = do
    code ← compiled_code compiled source
    inputs ← elim (abi.constructor_inputs code.1) [ err e ↦ fails e | ok inputs ↦ done inputs ]
    typed ← generate_typed_args lib params inputs
    bytes ← packed ErrorId.transaction_send_constructor_pack_args typed.1 typed.0
    built ←
        gen_eth_transaction lib (record msg { from = sender signer msg.from; to = "" })
          (code.0 ++ bytes)
    done (record (new_tx signer built) {
      private_from = private.private_from;
      private_for = private.private_for;
      privacy_group_id = private.privacy_group_id;
    })

  -- ^0x[0-9a-fA-F]+$
  unfoldable pub is_hex_block : String → Bool
  unfolding read_hex
  is_hex_block s =
      starts_with s "0x"
      && ltb 2 (len s)
      && elim (read_hex 0 (slice s 2 (len s))) [ none ↦ false | some n ↦ true ]

  -- The block that CallMethod asks about.
  unfoldable pub call_option : String → Run String
  unfolding is_hex_block
  call_option s =
      if s == "" || (s == "latest")
      then done "latest"
      else if is_hex_block s || (s == "earliest") || (s == "pending")
      then done s
      else elim (parse_big s) [
        | none ↦ refuse ErrorId.transaction_call_invalid_block_number
        | some n ↦ done (abi.encode_big n)
      ]

  unfoldable pub call_method :
      Node
      → Option TxSigner
      → (from addr value : String) → Method
      → List Param
      → String
      → Run (Option (Map String Output))
  unfolding build_tx call_option call process_rlp_bytes
  call_method node signer from addr value method params block = do
    tx ←
        build_tx signer
          (record { from = from; to = addr; nonce = ""; value = value; gas = ""; gas_price = "" })
          method params
    option ← call_option block
    answer ← call lib node tx option
    elim answer [
      | none ↦ done none
      | some bytes ↦ do
        outputs ←
            process_rlp_bytes lib method.outputs bytes (abi.unpack_values method.outputs bytes)
        done (some outputs)
    ]
