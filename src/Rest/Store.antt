-- ===== src/Rest/Store.antt =====
-- receiptstore.go of internal/maidenlanerest: a reply becomes a receipt, and the queries for receipts.
use Prim.Native.Char.{Char, code}
use Prim.Native.String.{[] as nil, ◌∷◌ as cons}
use zeroxyz.Prelude.{
  ℕ, String, List, [], ◌∷◌, ◌++◌, Option, none, some, Bool, true, not, ◌&&◌, ◌||◌, leb, eqb, ◌==◌,
  string_key, if◌then◌else◌, all,
}
use zeroxyz.Prelude.Int.{ℤ, pos, negsuc, ltb_ℤ}
use zeroxyz.Prelude.ParseInt.{parse_int}
use zeroxyz.Errors.{ErrorId, Error, errorf}
use zeroxyz.Auth.{Result, ok, err}
use zeroxyz.Rest.Json.{number, text, object, Fields, get_field, set_field, get_map_string}
use zeroxyz.Rest.Memory.{MemoryReceipts, add_receipt, ReceiptQuery}

-- A reply that decodes to an object: where its headers are an object with a request id, it is stored
-- under that id with the time at which it came. The headers of another kind panic, and so does a null
-- in one of the fields that are read as texts.
pub data Processed : Type 0 where
  panicked : Processed
  ignored : Processed
  stored : Fields → Processed

-- What is logged of a reply, and told to the gateway for contracts.
pub record Details : Type 0 where
  pub req_offset : String
  pub msg_type : String
  pub contract_addr : String
  pub result : String

abbrev pub result_key : String → String
result_key msg_type = if msg_type == "Error" then "errorMessage" else "transactionHash"

unfoldable pub details_of : Fields → Fields → Option Details
details_of parsed headers = elim (get_map_string headers "reqOffset") [
  | none ↦ none
  | some req_offset ↦ elim (get_map_string headers "type") [
    | none ↦ none
    | some msg_type ↦ elim (get_map_string parsed "contractAddress") [
      | none ↦ none
      | some contract_addr ↦ elim (get_map_string parsed (result_key msg_type)) [
        | none ↦ none
        | some result ↦ some (record {
          req_offset = req_offset;
          msg_type = msg_type;
          contract_addr = contract_addr;
          result = result;
        })
      ]
    ]
  ]
]

unfoldable pub receipt_of : ℤ → Fields → Fields → Processed
unfolding details_of
receipt_of now parsed headers = elim (get_map_string headers "requestId") [
  | none ↦ panicked
  | some request_id ↦ if request_id == "" then ignored else elim (details_of parsed headers) [
    | none ↦ panicked
    | some details ↦
        stored (set_field "_id" (text request_id) (set_field "receivedAt" (number now) parsed))
  ]
]

unfoldable pub process_reply : ℤ → Option Fields → Processed
unfolding receipt_of
process_reply now none = ignored
process_reply now (some parsed) = elim (get_field "headers" parsed) [
  | none ↦ ignored
  | some (object headers) ↦ receipt_of now parsed headers
  | some _ ↦ panicked
]

-- What the store in memory holds after a reply.
unfoldable pub persist : Processed → MemoryReceipts → MemoryReceipts
persist panicked m = m
persist ignored m = m
persist (stored receipt) m = add_receipt receipt m

-- [0-9a-zA-Z-]
is_uuid_char : Char → Bool
is_uuid_char c =
    (leb b'0' (code c) && leb (code c) b'9')
    || (leb b'a' (code c) && leb (code c) b'z')
    || (leb b'A' (code c) && leb (code c) b'Z')
    || eqb (code c) b'-'

all_uuid_chars : String → Bool
unfolding is_uuid_char
all_uuid_chars nil = true
all_uuid_chars (cons c s) = is_uuid_char c && all_uuid_chars s

unfoldable pub verifies : String → Bool
unfolding all_uuid_chars
verifies s = not (s == "") && all_uuid_chars s

-- The form of a request, and what time.Parse makes of a text, in milliseconds.
pub record Form : Type 0 where
  pub id : Option (List String)
  pub limit : String
  pub skip : String
  pub since : String
  pub from : String
  pub to : String
  pub parse_time : String → Option ℤ

default_receipt_limit : ℕ
default_receipt_limit = 10

abbrev pub magnitude : ℤ → ℕ
magnitude (pos n) = n
magnitude (negsuc n) = 0

unfoldable pub read_ids : Form → Result (List String × ℕ)
unfolding default_receipt_limit
read_ids form = elim form.id [
  | none ↦ ok ([], default_receipt_limit)
  | some ids ↦
      if all verifies ids
      then ok (ids, 0)
      else err (errorf ErrorId.receipt_store_invalid_request_id)
]

unfoldable pub read_limit : ℤ → String → ℕ → Result ℕ
read_limit query_limit s limit = if s == "" then ok limit else elim (parse_int 32 s) [
  | none ↦ err (errorf ErrorId.receipt_store_invalid_request_bad_limit)
  | some n ↦
      if ltb_ℤ query_limit n
      then err (errorf ErrorId.receipt_store_invalid_request_max_limit)
      else ok (if ltb_ℤ (pos 0) n then magnitude n else limit)
]

unfoldable pub read_skip : String → Result ℕ
read_skip s = if s == "" then ok 0 else elim (parse_int 32 s) [
  | none ↦ err (errorf ErrorId.receipt_store_invalid_request_bad_skip)
  | some n ↦
      if ltb_ℤ (pos 0) n
      then ok (magnitude n)
      else err (errorf ErrorId.receipt_store_invalid_request_bad_skip)
]

-- A text that is neither leaves 0 beside the error.
unfoldable pub read_since : Form → ℤ × Option Error
read_since form = if form.since == "" then (pos 0, none) else elim (form.parse_time form.since) [
  | some t ↦ (t, none)
  | none ↦ elim (parse_int 64 form.since) [
    | some t ↦ (t, none)
    | none ↦ (pos 0, some (errorf ErrorId.receipt_store_invalid_request_bad_since))
  ]
]

-- What is written to the response of a request; a list of two is two writes.
pub data Response : Type 0 where
  rest_error : ℕ → ErrorId → Response
  receipts : List Fields → Response
  receipt : Fields → Response

abbrev error_id : Error → ErrorId → ErrorId
error_id (errorf id) other = id
error_id e other = other

abbrev bad_request : Error → List Response
bad_request e = rest_error 400 (error_id e ErrorId.receipt_store_failed_query) ∷ []

unfoldable pub query_receipts : (ReceiptQuery → Result (List Fields)) → ReceiptQuery → List Response
query_receipts persistence q = elim (persistence q) [
  | err e ↦ rest_error 500 ErrorId.receipt_store_failed_query ∷ []
  | ok rs ↦ receipts rs ∷ []
]

abbrev pub complaint : Option Error → List Response
complaint none = []
complaint (some e) = bad_request e

-- The query of a form, with what is written before the query is made.
unfoldable pub read_query : ℤ → Form → Result (ReceiptQuery × List Response)
unfolding read_ids read_limit read_skip read_since
read_query query_limit form = elim (read_ids form) [
  | err e ↦ err e
  | ok (ids, start) ↦ elim (read_limit query_limit form.limit start) [
    | err e ↦ err e
    | ok limit ↦ elim (read_skip form.skip) [
      | err e ↦ err e
      | ok skip ↦ ok (
        record {
          skip = skip;
          limit = limit;
          ids = ids;
          since = (read_since form).0;
          from = form.from;
          to = form.to;
        },
        complaint (read_since form).1,
      )
    ]
  ]
]

-- `denied` is what AuthListAsyncReplies answers; there may be no persistence.
unfoldable pub get_replies :
    Option Error → Option (ReceiptQuery → Result (List Fields)) → ℤ → Form → List Response
unfolding read_query query_receipts
get_replies (some e) persistence query_limit form = rest_error 401 ErrorId.unauthorized ∷ []
get_replies none none query_limit form = rest_error 405 ErrorId.receipt_store_disabled ∷ []
get_replies none (some persistence) query_limit form = elim (read_query query_limit form) [
  | err e ↦ bad_request e
  | ok (q, written) ↦ written ++ query_receipts persistence q
]

-- `denied` is what AuthReadAsyncReplyByUUID answers.
unfoldable pub get_reply : Option Error → (String → Result (Option Fields)) → String → List Response
get_reply (some e) persistence id = rest_error 401 ErrorId.unauthorized ∷ []
get_reply none persistence id = elim (persistence id) [
  | err e ↦ rest_error 500 ErrorId.receipt_store_failed_query_single ∷ []
  | ok none ↦ rest_error 404 ErrorId.receipt_store_failed_not_found ∷ []
  | ok (some r) ↦ receipt r ∷ []
]
