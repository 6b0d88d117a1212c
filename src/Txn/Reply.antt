-- ===== src/Txn/Reply.antt =====
-- The receipt of the node and the replies that a request gets: TransactionReceipt and ErrorReply of
-- internal/maidenlanemessages/messages.go, and how txnprocessor.go fills the receipt in.
use Prim.Native.Nat.{◌%◌, ◌^◌}
use Prim.Native.String.{◌++◌ as append}
use zeroxyz.Prelude.{
  ℕ, ◌+◌, ◌-◌, String, Option, none, some, Bool, true, false, ◌&&◌, ltb, if◌then◌else◌,
}
use zeroxyz.Prelude.Int.{ℤ, pos, negsuc}
use zeroxyz.Prelude.Decimal.{decimal}
use zeroxyz.Errors.{Error}

-- TxnReceipt of internal/maidenlaneeth/txn.go: what the node knows of a mined transaction.
pub record TxnReceipt : Type 0 where
  pub block_hash : Option String
  pub block_number : Option ℕ
  pub contract_address : Option String
  pub cumulative_gas_used : Option ℕ
  pub transaction_hash : Option String
  pub from : Option String
  pub gas_used : Option ℕ
  pub status : Option ℕ
  pub to : Option String
  pub transaction_index : Option ℕ

pub data MsgType : Type 0 where
  transaction_success transaction_failure : MsgType

-- A number as text, and in hexadecimal where that is configured.
pub record TransactionReceipt : Type 0 where
  pub msg_type : MsgType
  pub block_hash : Option String
  pub block_number_str : String
  pub block_number_hex : Option ℕ
  pub contract_address : Option String
  pub register_as : String
  pub cumulative_gas_used_str : String
  pub cumulative_gas_used_hex : Option ℕ
  pub from : Option String
  pub gas_used_str : String
  pub gas_used_hex : Option ℕ
  pub nonce_str : String
  pub nonce_hex : Option ℕ
  pub status_str : String
  pub status_hex : Option ℕ
  pub to : Option String
  pub transaction_hash : Option String
  pub transaction_index_str : String
  pub transaction_index_hex : Option ℕ

-- The calls on `TxnContext` that answer a request.
pub data Reply : Type 0 where
  send_error_reply : ℕ → Error → Reply
  send_error_reply_with_tx : ℕ → Error → String → Reply
  send_error_reply_with_gap_fill : ℕ → Error → String → Bool → Reply
  reply : TransactionReceipt → Reply

text_of : Option ℕ → String
text_of none = ""
text_of (some n) = decimal n

hex_if : {A : Type 0} → Bool → Option A → Option A
hex_if true n = n
hex_if false n = none

-- strconv.FormatInt(n, 10)
unfoldable pub format_int : ℤ → String
format_int (pos n) = decimal n
format_int (negsuc n) = append "-" (decimal (n + 1))

-- uint64(n) of an int64
unfoldable pub uint64_of_int64 : ℤ → ℕ
uint64_of_int64 (pos n) = n
uint64_of_int64 (negsuc n) = 18446744073709551615 - n

-- receipt.Status != nil && receipt.Status.ToInt().Int64() > 0
unfoldable pub is_success : Option ℕ → Bool
is_success none = false
is_success (some n) = ltb 0 (n % 2 ^ 64) && ltb (n % 2 ^ 64) (2 ^ 63)

unfoldable pub build_reply : Bool → TxnReceipt → String → ℤ → TransactionReceipt
unfolding text_of hex_if format_int is_success uint64_of_int64
build_reply hex receipt register_as nonce = record {
  msg_type = if is_success receipt.status then transaction_success else transaction_failure;
  block_hash = receipt.block_hash;
  block_number_str = text_of receipt.block_number;
  block_number_hex = hex_if hex receipt.block_number;
  contract_address = receipt.contract_address;
  register_as = register_as;
  cumulative_gas_used_str = text_of receipt.cumulative_gas_used;
  cumulative_gas_used_hex = hex_if hex receipt.cumulative_gas_used;
  from = receipt.from;
  gas_used_str = text_of receipt.gas_used;
  gas_used_hex = hex_if hex receipt.gas_used;
  nonce_str = format_int nonce;
  nonce_hex = hex_if hex (some (uint64_of_int64 nonce));
  status_str = text_of receipt.status;
  status_hex = hex_if hex receipt.status;
  to = receipt.to;
  transaction_hash = receipt.transaction_hash;
  transaction_index_str = text_of receipt.transaction_index;
  transaction_index_hex = hex_if hex receipt.transaction_index;
}
