-- ===== src/Rest/Memory.antt =====
-- The receipts in memory, memreceipts.go of internal/maidenlanerest.
use zeroxyz.Prelude.{
  ℕ, zero, suc, ◌+◌, ◌<◌, ◌≤◌, String, List, [], ◌∷◌, ◌++◌, Option, none, some, Bool, true, false,
  not, ◌&&◌, ◌||◌, ◌≡◌, refl, ap, ◌∙◌, arith, leb, ltb, eqb, ◌==◌, string_key, if◌then◌else◌,
  length, inl, inr, Bool-cases,
}
use zeroxyz.Prelude.Int.{ℤ, pos, negsuc}
use zeroxyz.Errors.{ErrorId, errorf}
use zeroxyz.Auth.{Result, ok, err}
use zeroxyz.Rest.Json.{text, Fields, get_field}

-- The newest receipt first.
pub record MemoryReceipts : Type 0 where
  pub max_docs : ℕ
  pub receipts : List Fields

-- All but the last: Remove(Back())
unfoldable pub remove_back : List Fields → List Fields
remove_back [] = []
remove_back (r ∷ []) = []
remove_back (r ∷ s ∷ rs) = r ∷ remove_back (s ∷ rs)

unfoldable pub add_receipt : Fields → MemoryReceipts → MemoryReceipts
unfolding remove_back
add_receipt receipt m =
    let kept =
      if ltb 0 (length m.receipts) && leb m.max_docs (length m.receipts)
      then remove_back m.receipts
      else m.receipts in
    record m { receipts = receipt ∷ kept }

-- The two loops over the list.
unfoldable pub skip_some : ℕ → List Fields → List Fields
skip_some zero rs = rs
skip_some (suc n) [] = []
skip_some (suc n) (r ∷ rs) = skip_some n rs

unfoldable pub collect : ℕ → List Fields → List Fields
collect zero rs = []
collect (suc n) [] = []
collect (suc n) (r ∷ rs) = r ∷ collect n rs

pub record ReceiptQuery : Type 0 where
  pub skip : ℕ
  pub limit : ℕ
  pub ids : List String
  pub since : ℤ
  pub from : String
  pub to : String

abbrev is_empty {ℓ} : {A : Type ℓ} → List A → Bool
is_empty [] = true
is_empty (x ∷ xs) = false

abbrev pub is_zero : ℤ → Bool
is_zero (pos n) = eqb n 0
is_zero (negsuc n) = false

unfoldable pub get_receipts : ReceiptQuery → MemoryReceipts → Result (List Fields)
unfolding skip_some collect
get_receipts q m =
    if not (is_empty q.ids) || not (is_zero q.since) || not (q.from == "") || not (q.to == "")
    then err (errorf ErrorId.kv_store_mem_filtering_unsupported)
    else ok (collect q.limit (skip_some q.skip m.receipts))

-- `id == requestID` compares an interface with a text.
abbrev pub has_id : String → Fields → Bool
has_id id r = elim (get_field "_id" r) [ some (text s) ↦ s == id | some _ ↦ false | none ↦ false ]

unfoldable pub find_receipt : String → List Fields → Option Fields
find_receipt id [] = none
find_receipt id (r ∷ rs) = let rest = find_receipt id rs in if has_id id r then some r else rest

unfoldable pub get_receipt : String → MemoryReceipts → Option Fields
unfolding find_receipt
get_receipt id m = find_receipt id m.receipts

length-remove_back : (r : Fields) (rs : List Fields) → length (remove_back (r ∷ rs)) ≡ length rs
unfolding remove_back
length-remove_back r [] = refl
length-remove_back r (s ∷ rs) = ap (λ n. suc n) (length-remove_back s rs)

bounded :
    (max : ℕ) (receipt : Fields) (rs : List Fields)
    → 0 < max
    → length rs ≤ max
    → length (add_receipt receipt (record { max_docs = max; receipts = rs })).receipts ≤ max
unfolding add_receipt
bounded max receipt [] h k = ground arith
bounded max receipt (r ∷ rs) h k = ground (arith, length-remove_back r rs, h, k)

-- Adding a receipt to a store that may hold at least one, and holds no more than it may, leaves no
-- more than it may.
pub length-add_receipt-le :
    (m : MemoryReceipts) (receipt : Fields)
    → 0 < m.max_docs
    → length m.receipts ≤ m.max_docs
    → length (add_receipt receipt m).receipts ≤ m.max_docs
length-add_receipt-le m receipt h k = bounded m.max_docs receipt m.receipts h k

remove_back-collect :
    (k : ℕ) (rs : List Fields)
    → k < length (collect (suc k) rs)
    → remove_back (collect (suc k) rs) ≡ collect k rs
unfolding remove_back collect
remove_back-collect k [] h = absurd (omega (arith, h))
remove_back-collect zero (r ∷ rs) h = refl
remove_back-collect (suc k) (r ∷ []) h = absurd (omega (arith, h))
remove_back-collect (suc k) (r ∷ s ∷ rs) h =
    ap (λ l. r ∷ l) (remove_back-collect k (s ∷ rs) (omega (arith, h)))

collect_short :
    (k : ℕ) (rs : List Fields) → length (collect (suc k) rs) ≤ k → collect (suc k) rs ≡ collect k rs
unfolding collect
collect_short zero [] h = refl
collect_short (suc k) [] h = refl
collect_short zero (r ∷ rs) h = absurd (omega (arith, h))
collect_short (suc k) (r ∷ rs) h = ap (λ l. r ∷ l) (collect_short k rs (omega (arith, h)))

kept-collect :
    (k : ℕ) (rs : List Fields)
    → (if ltb 0 (length (collect (suc k) rs)) && leb (suc k) (length (collect (suc k) rs))
        then remove_back (collect (suc k) rs)
        else collect (suc k) rs)
      ≡ collect k rs
kept-collect k rs =
    elim (Bool-cases
      (ltb 0 (length (collect (suc k) rs)) && leb (suc k) (length (collect (suc k) rs)))) [
        | inl full ↦ simp full (remove_back-collect k rs (ground arith))
        | inr room ↦ simp room (collect_short k rs (ground arith))
      ]

-- A store that keeps the newest receipts keeps them when one comes in.
add_receipt-collect :
    (k : ℕ) (r : Fields) (rs : List Fields)
    → add_receipt r (record { max_docs = suc k; receipts = collect (suc k) rs })
      ≡ record { max_docs = suc k; receipts = collect (suc k) (r ∷ rs) }
unfolding add_receipt collect
add_receipt-collect k r rs =
    ap (λ l. record { max_docs = suc k; receipts = r ∷ l }) (kept-collect k rs)

-- Receipts that come in, the last of the list first.
unfoldable pub add_all : List Fields → MemoryReceipts → MemoryReceipts
add_all [] m = m
add_all (r ∷ rs) m = add_receipt r (add_all rs m)

abbrev pub empty_store : ℕ → MemoryReceipts
empty_store max = record { max_docs = max; receipts = [] }

add_all-collect :
    (k : ℕ) (rs : List Fields)
    → add_all rs (empty_store (suc k)) ≡ record { max_docs = suc k; receipts = collect (suc k) rs }
unfolding add_all collect
add_all-collect k [] = refl
add_all-collect k (r ∷ rs) = ap (add_receipt r) (add_all-collect k rs) ∙ add_receipt-collect k r rs

-- The newest of a list, then a page, then the rest.
page_of_collect :
    (newer asked older : List Fields) (max : ℕ)
    → length newer + length asked ≤ max
    → collect (length asked) (skip_some (length newer) (collect max (newer ++ asked ++ older)))
      ≡ asked
unfolding collect skip_some
page_of_collect [] [] older max h = refl
page_of_collect [] (r ∷ rs) older zero h = absurd (omega (arith, h))
page_of_collect [] (r ∷ rs) older (suc max) h =
    ap (λ l. r ∷ l) (page_of_collect [] rs older max (omega (arith, h)))
page_of_collect (r ∷ rs) asked older zero h = absurd (omega (arith, h))
page_of_collect (r ∷ rs) asked older (suc max) h =
    page_of_collect rs asked older max (omega (arith, h))

abbrev pub page : ℕ → ℕ → ReceiptQuery
page skip limit = record { skip = skip; limit = limit; ids = []; since = pos 0; from = ""; to = "" }

-- Whatever came in at an empty store that keeps at most `max` receipts, a page that lies within the
-- newest `max` has exactly the receipts at these places, counted from the newest, the newest first:
-- of `newer ++ asked ++ older`, newest first, the page that skips as many as `newer` has and asks for
-- as many as `asked` has is `asked`.
pub get_receipts-add_all :
    (max : ℕ) (newer asked older : List Fields)
    → 0 < max
    → length newer + length asked ≤ max
    → get_receipts
        (page (length newer) (length asked))
        (add_all (newer ++ asked ++ older) (empty_store max))
      ≡ ok asked
unfolding get_receipts
get_receipts-add_all zero newer asked older h k = absurd (omega (arith, h))
get_receipts-add_all (suc max) newer asked older h k =
    ap (λ (m : MemoryReceipts). ok (collect (length asked) (skip_some (length newer) m.receipts)))
      (add_all-collect max (newer ++ asked ++ older))
    ∙ ap ok (page_of_collect newer asked older (suc max) k)
