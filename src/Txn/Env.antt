-- ===== src/Txn/Env.antt =====
-- What `addInflightWrapper` of txnprocessor.go asks before it takes the lock: who signs, through
-- which connection, for which address and privacy group.
use Prim.Native.String.{◌++◌ as append}
use text.Mathlib.Text.{starts_with}
use zeroxyz.Prelude.{
  ℕ, ◌-◌, String, List, [], ◌∷◌, Option, none, some, Bool, true, false, not, ◌&&◌, ◌==◌, leb,
  string_key, if◌then◌else◌,
}
use zeroxyz.Prelude.Int.{ℤ, pos, negsuc, max_int64}
use zeroxyz.Errors.{ErrorId, errorf}
use zeroxyz.Auth.{Result, ok, err}
use zeroxyz.Txn.State.{Signer, TxnProcessorConf, TransactionCommon}

-- What the wallet, the address book, the node and go-ethereum answer while one message is handled.
pub record Env : Type 0 where
  -- IsHDWalletRequest, and the wallet if one is configured
  pub is_hd_wallet_request : String → Bool
  pub hdwallet : Option (String → Result Signer)
  pub rpc : String
  pub address_book : Option (String → Result String)
  -- IsHexAddress and HexToAddress(…).Hex() in lower case
  pub hex_address : String → Option String
  -- the node's JSON/RPC calls of these names
  pub eth_get_transaction_count : String → Result ℕ
  pub priv_get_transaction_count : String → String → Result ℕ
  pub priv_find_privacy_group : List String → Result (List String)
  pub priv_create_privacy_group : List String → Result String
  -- GetInitialDelay of the delay tracker
  pub initial_delay : ℕ

-- int64(n) of a uint64
unfoldable pub int64_of_uint64 : ℕ → ℤ
int64_of_uint64 n = if leb n max_int64 then pos n else negsuc (18446744073709551615 - n)

-- GetTransactionCount of internal/maidenlaneeth/txncount.go; the value beside an error is 0.
unfoldable pub get_transaction_count : Env → String → Result ℤ
unfolding int64_of_uint64
get_transaction_count env addr = elim (env.eth_get_transaction_count addr) [
  | ok n ↦ ok (int64_of_uint64 n)
  | err e ↦ err (errorf ErrorId.rpc_call_returned_error)
]

-- GetOrionTXCount
unfoldable pub get_orion_tx_count : Env → String → String → Result ℤ
unfolding int64_of_uint64
get_orion_tx_count env addr group = elim (env.priv_get_transaction_count addr group) [
  | ok n ↦ ok (int64_of_uint64 n)
  | err e ↦ err (errorf ErrorId.transaction_send_nonce_fail_with_privacy_group)
]

created : Result String → Result String
created (ok group) = ok group
created (err e) = err (errorf ErrorId.rpc_call_returned_error)

-- GetOrionPrivacyGroup of internal/maidenlaneeth/privacygroup.go
unfoldable pub get_orion_privacy_group : Env → String → List String → Result String
unfolding created
get_orion_privacy_group env private_from private_for =
    let members = private_from ∷ private_for in
    elim (env.priv_find_privacy_group members) [
      | err e ↦ err (errorf ErrorId.rpc_call_returned_error)
      | ok [] ↦ created (env.priv_create_privacy_group members)
      | ok (group ∷ groups) ↦ ok group
    ]

-- resolveSigner
unfoldable pub resolve_signer : Env → String → Result (Option Signer)
resolve_signer env from =
    if env.is_hd_wallet_request from
    then elim env.hdwallet [
      | none ↦ err (errorf ErrorId.hd_wallet_signing_no_config)
      | some signer_for ↦ elim (signer_for from) [ ok s ↦ ok (some s) | err e ↦ err e ]
    ]
    else ok none

-- ResolveAddress
unfoldable pub resolve_address : Env → String → Result String
unfolding resolve_signer
resolve_address env from = elim (resolve_signer env from) [
  | err e ↦ err e
  | ok none ↦ ok from
  | ok (some s) ↦ ok s.address
]

-- StrToAddress of internal/maidenlaneutils/ethutils.go
unfoldable pub str_to_address : Env → String → Result String
str_to_address env s =
    if s == ""
    then err (errorf ErrorId.helper_str_to_address_required_field)
    else elim (env.hex_address (if starts_with s "0x" then s else append "0x" s)) [
      | none ↦ err (errorf ErrorId.helper_str_to_address_bad_address)
      | some addr ↦ ok addr
    ]

-- What is known of a request before the lock is taken.
pub record Prepared : Type 0 where
  pub from : String
  pub signer : Option Signer
  pub rpc : String
  pub privacy_group_id : String

abbrev pub nonempty {ℓ} : {A : Type ℓ} → List A → Bool
nonempty [] = false
nonempty (x ∷ xs) = true

infixl 5 ◌>>=◌
abbrev ◌>>=◌ : {A B : Type 0} → Result A → (A → Result B) → Result B
ok a >>= f = f a
err e >>= f = err e

unfoldable pub choose_rpc : Env → Option Signer → String → Result (String × String)
choose_rpc env (some s) from = ok (s.address, env.rpc)
choose_rpc env none from = elim env.address_book [
  | none ↦ ok (from, env.rpc)
  | some look ↦ elim (look from) [ ok rpc ↦ ok (from, rpc) | err e ↦ err e ]
]

unfoldable pub resolve_privacy_group : Env → TxnProcessorConf → TransactionCommon → Result String
unfolding get_orion_privacy_group
resolve_privacy_group env conf msg =
    if not conf.orion_private_apis
    then ok ""
    else if not (msg.privacy_group_id == "") && nonempty msg.private_for
    then err (errorf ErrorId.transaction_send_private_for_and_privacy_group)
    else if not (msg.privacy_group_id == "")
    then ok msg.privacy_group_id
    else if nonempty msg.private_for
    then get_orion_privacy_group env msg.private_from msg.private_for
    else ok ""

unfoldable pub prepare : Env → TxnProcessorConf → TransactionCommon → Result Prepared
unfolding resolve_signer choose_rpc str_to_address resolve_privacy_group
prepare env conf msg = do
  signer ← resolve_signer env msg.from
  chosen ← choose_rpc env signer msg.from
  from ← str_to_address env chosen.0
  group ← resolve_privacy_group env conf msg
  ok (record { from = from; signer = signer; rpc = chosen.1; privacy_group_id = group })
