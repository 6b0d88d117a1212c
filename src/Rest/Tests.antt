-- ===== src/Rest/Tests.antt =====
-- The REST side on concrete requests.
use zeroxyz.Prelude.{
  String, List, [], ◌∷◌, none, some, Bool, true, false, if◌then◌else◌, ◌==◌, ◌≡◌, refl, arith,
  string_key,
}
use zeroxyz.Prelude.Int.{pos}
use zeroxyz.Errors.{ErrorId}
use zeroxyz.Auth.{Result, ok}
use zeroxyz.Kafka.Sort.{CommonHeaders}
use zeroxyz.Rest.Json.{text, object, Fields, no_fields, field, get_field, set_field, get_map_string}
use zeroxyz.Rest.Memory.{
  MemoryReceipts, get_receipts, get_receipt, ReceiptQuery, page, add_all, empty_store,
  get_receipts-add_all,
}
use zeroxyz.Rest.Store.{process_reply, persist, Form, Response}
use zeroxyz.Rest.Receipts.{HasNoNulls, NotNull, get_receipt-process_reply}
use zeroxyz.Rest.Direct.{WebhooksDirect, WebhooksDirectConf, process_msg, passed, validate}
use zeroxyz.Rest.Capacity.{sends, serve, IsWithin, serve-IsWithin}
use zeroxyz.Rest.Checks.{process_msg-passed}

abbrev headers : Fields
headers = field "requestId" (text "r-1") no_fields

abbrev parsed : Fields
parsed = field "headers" (object headers) (field "status" (text "1") no_fields)

abbrev full : MemoryReceipts
full = record { max_docs = 2; receipts = no_fields ∷ parsed ∷ [] }

get_receipts-add_all_example :
    get_receipts (page 1 1) (add_all (no_fields ∷ parsed ∷ no_fields ∷ []) (empty_store 2))
    ≡ ok (parsed ∷ [])
get_receipts-add_all_example =
    get_receipts-add_all 2 (no_fields ∷ []) (parsed ∷ []) (no_fields ∷ []) (omega arith)
      (omega arith)

no_result : (b : Bool) → NotNull (if b then "errorMessage" else "transactionHash") parsed
unfolding get_field
no_result true h = absurd (cc (h))
no_result false h = absurd (cc (h))

parsed-HasNoNulls : HasNoNulls parsed headers
unfolding get_field
parsed-HasNoNulls = record {
  req_offset = λ h. absurd (cc (h));
  msg_type = λ h. absurd (cc (h));
  contract_address = λ h. absurd (cc (h));
  result = λ t e. no_result (t == "Error");
}

get_receipt-process_reply_example :
    (r : Fields) × (get_receipt "r-1" (persist (process_reply (pos 5) (some parsed)) full) ≡ some r)
    × (get_field "status" r ≡ some (text "1"))
unfolding get_field get_map_string
get_receipt-process_reply_example =
    get_receipt-process_reply (pos 5) parsed headers full "r-1" "status" refl refl refl
      parsed-HasNoNulls

abbrev form : Form
form = record {
  id = none;
  limit = "5";
  skip = "";
  since = "noon";
  from = "";
  to = "";
  parse_time = λ s. none;
}

abbrev query : ReceiptQuery
query = record { skip = 0; limit = 5; ids = []; since = pos 0; from = ""; to = "" }

abbrev complaints : List Response
complaints = Response.rest_error 400 ErrorId.receipt_store_invalid_request_bad_since ∷ []

abbrev direct_conf : WebhooksDirectConf
direct_conf = record { rpc_url = "http://node"; max_in_flight = pos 1; max_tx_wait_time = pos 10 }

abbrev empty : WebhooksDirect
empty = record { conf = direct_conf; in_flight = [] }

abbrev decoded : Result CommonHeaders
decoded = ok (record { id = "m-1"; msg_type = "SendTransaction"; account = "" })

serve-IsWithin_example :
    IsWithin 1
      (serve (sends decoded "0xa" "m-1" parsed ∷ sends decoded "0xb" "m-2" parsed ∷ []) empty)
serve-IsWithin_example =
    serve-IsWithin 1 (sends decoded "0xa" "m-1" parsed ∷ sends decoded "0xb" "m-2" parsed ∷ [])
      empty (record { limit = refl; within = omega arith })

abbrev request : Fields
request =
    field "headers"
      (object (field "type" (text "SendTransaction") (field "id" (text "mine") no_fields)))
      (field "from" (text "0xa") no_fields)

abbrev labelled_request : Fields
labelled_request =
    field "headers"
      (object (field "type" (text "SendTransaction") (field "id" (text "u-1") no_fields)))
      (field "from" (text "0xa") no_fields)

passes : process_msg none "u-1" request ≡ passed "0xa" "u-1" labelled_request
unfolding process_msg get_field set_field
passes = refl

process_msg-passed_example :
    (headers : Fields) × (◌≡◌ {A = String} "u-1" "u-1")
    × (get_field "headers" labelled_request ≡ some (object headers))
    × (get_field "id" headers ≡ some (text "u-1"))
    × (get_field "from" labelled_request ≡ some (text "0xa"))
process_msg-passed_example = process_msg-passed "u-1" "0xa" "u-1" request labelled_request passes

valid : validate direct_conf ≡ ok direct_conf
unfolding validate
valid = refl
