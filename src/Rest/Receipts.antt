-- ===== src/Rest/Receipts.antt =====
-- A reply that receiptstore.go stores is found again.
use zeroxyz.Prelude.{
  String, List, ◌∷◌, some, true, false, ◌≡◌, refl, ap, ◌∙◌, ◌==◌, string_key, eq_iff, if◌then◌else◌,
  Option-cases, inl, inr,
}
use zeroxyz.Prelude.Int.{ℤ}
use zeroxyz.Rest.Json.{
  null, boolean, number, text, array, object, Fields, get_field, set_field, get_map_string,
  get_field-set_field,
}
use zeroxyz.Rest.Memory.{MemoryReceipts, add_receipt, get_receipt, has_id, find_receipt}
use zeroxyz.Rest.Store.{process_reply, receipt_of, persist, stored, Details, result_key, details_of}

abbrev pub made : ℤ → String → Fields → Fields
made now id parsed = set_field "_id" (text id) (set_field "receivedAt" (number now) parsed)

abbrev pub NotNull : String → Fields → Type 0
NotNull key m = get_field key m ≡ some null → ⊥

get_map_string-NotNull :
    (key : String) (m : Fields) → NotNull key m → (s : String) × (get_map_string m key ≡ some s)
unfolding get_map_string
get_map_string-NotNull key m h = elim (Option-cases (get_field key m)) [
  | inl q ↦ ("", simp (q, get_map_string) refl)
  | inr (null, q) ↦ absurd (h q)
  | inr (boolean b, q) ↦ ("", simp (q, get_map_string) refl)
  | inr (number n, q) ↦ ("", simp (q, get_map_string) refl)
  | inr (text s, q) ↦ (s, simp (q, get_map_string) refl)
  | inr (array vs, q) ↦ ("", simp (q, get_map_string) refl)
  | inr (object o, q) ↦ ("", simp (q, get_map_string) refl)
]

-- The fields that are read as texts besides the request id.
pub record HasNoNulls (parsed headers : Fields) : Type 0 where
  pub req_offset : NotNull "reqOffset" headers
  pub msg_type : NotNull "type" headers
  pub contract_address : NotNull "contractAddress" parsed
  pub result :
      (msg_type : String)
      → get_map_string headers "type" ≡ some msg_type
      → NotNull (result_key msg_type) parsed

details_of-HasNoNulls :
    (parsed headers : Fields)
    → HasNoNulls parsed headers
    → (d : Details) × (details_of parsed headers ≡ some d)
unfolding details_of
details_of-HasNoNulls parsed headers h =
    let (o, offset) = get_map_string-NotNull "reqOffset" headers h.req_offset in
    let (t, type_) = get_map_string-NotNull "type" headers h.msg_type in
    let (a, address) = get_map_string-NotNull "contractAddress" parsed h.contract_address in
    let (r, result) = get_map_string-NotNull (result_key t) parsed (h.result t type_) in
    (
      record { req_offset = o; msg_type = t; contract_addr = a; result = r },
      simp (offset, type_, address, result, details_of) refl,
    )

process_reply-stored :
    (now : ℤ) (parsed headers : Fields) (id : String)
    → get_field "headers" parsed ≡ some (object headers)
    → get_map_string headers "requestId" ≡ some id
    → (id == "") ≡ false
    → HasNoNulls parsed headers
    → process_reply now (some parsed) ≡ stored (made now id parsed)
unfolding process_reply receipt_of
process_reply-stored now parsed headers id there named nonempty clean =
    let (d, details) = details_of-HasNoNulls parsed headers clean in
    simp (there, process_reply) (simp (named, receipt_of) (simp nonempty (simp (details) refl)))

has_id_of :
    (id s : String) (r : Fields) → get_field "_id" r ≡ some (text s) → has_id id r ≡ (s == id)
has_id_of id s r q = simp (q, has_id) refl

has_id-made : (now : ℤ) (id : String) (parsed : Fields) → has_id id (made now id parsed) ≡ true
has_id-made now id parsed =
    has_id_of id id _
      (get_field-set_field "_id" "_id" (text id) (set_field "receivedAt" (number now) parsed))
    ∙ (eq_iff id id).1 refl

find_receipt-first :
    (id : String) (r : Fields) (rs : List Fields)
    → has_id id r ≡ true
    → find_receipt id (r ∷ rs) ≡ some r
unfolding find_receipt
find_receipt-first id r rs h = simp h refl

get_field-made :
    (now : ℤ) (id k : String) (parsed : Fields)
    → get_field k (made now id parsed) ≡ (
        if "_id" == k
        then some (text id)
        else if "receivedAt" == k
        then some (number now)
        else get_field k parsed)
get_field-made now id k parsed =
    simp
      (
        get_field-set_field "_id" k (text id) (set_field "receivedAt" (number now) parsed),
        get_field-set_field "receivedAt" k (number now) parsed,
      )
      refl

-- A reply whose headers carry a request id, and in which no other field that is read as a text is
-- null, is found under that id once it is processed, with the id and the time at which it came, and
-- with every other field as it was.
pub get_receipt-process_reply :
    (now : ℤ) (parsed headers : Fields) (m : MemoryReceipts) (id k : String)
    → get_field "headers" parsed ≡ some (object headers)
    → get_map_string headers "requestId" ≡ some id
    → (id == "") ≡ false
    → HasNoNulls parsed headers
    → (r : Fields) × (get_receipt id (persist (process_reply now (some parsed)) m) ≡ some r)
      × (get_field k r ≡ (
          if "_id" == k
          then some (text id)
          else if "receivedAt" == k
          then some (number now)
          else get_field k parsed))
unfolding process_reply persist get_receipt add_receipt
get_receipt-process_reply now parsed headers m id k there named nonempty clean =
    let r = made now id parsed in
    (
      r,
      ap (λ p. get_receipt id (persist p m))
            (process_reply-stored now parsed headers id there named nonempty clean)
          ∙ find_receipt-first id r _ (has_id-made now id parsed),
      get_field-made now id k parsed,
    )
