-- ===== src/Rest/Queries.antt =====
-- The queries for receipts that receiptstore.go makes of a form.
use zeroxyz.Prelude.{
  ℕ, String, List, none, true, false, ◌≡◌, refl, ap, sym, subst, ◌∙◌, ◌⊎◌, inl, inr, arith, ◌==◌,
  string_key, all, Bool-cases, Option-cases,
}
use zeroxyz.Prelude.Int.{ℤ, pos, negsuc, ltb_ℤ, ◌≤ℤ◌}
use zeroxyz.Prelude.ParseInt.{parse_int}
use zeroxyz.Errors.{ErrorId}
use zeroxyz.Auth.{Result, ok, err, Result-cases}
use zeroxyz.Rest.Json.{Fields}
use zeroxyz.Rest.Memory.{ReceiptQuery}
use zeroxyz.Rest.Store.{
  verifies, Form, magnitude, read_ids, read_limit, read_skip, read_since, Response, rest_error,
  receipts, complaint, read_query,
}

limit_bound :
    (query_limit n : ℤ)
    → ltb_ℤ query_limit n ≡ false
    → ltb_ℤ (pos 0) n ≡ true
    → pos (magnitude n) ≤ℤ query_limit
limit_bound query_limit (pos n) h k = ground (arith, h)
limit_bound query_limit (negsuc n) h k = absurd (ground (arith, k))

ok_inj : {A : Type 0} {a b : A} → ok a ≡ ok b → a ≡ b
ok_inj h = ground (arith, h)

read_limit-cases :
    (query_limit : ℤ) (s : String) (start limit : ℕ)
    → read_limit query_limit s start ≡ ok limit
    → (pos limit ≤ℤ query_limit) ⊎ (limit ≡ start)
unfolding read_limit
read_limit-cases query_limit s start limit = elim (Bool-cases (s == "")) [
  | inl e ↦ simp e (λ h. inr (sym (ok_inj h)))
  | inr e ↦ simp e (elim (Option-cases (parse_int 32 s)) [
    | inl q ↦ simp (q, read_limit) (λ h. absurd (cc (h)))
    | inr (n, q) ↦
        simp (q, read_limit)
          (elim (Bool-cases (ltb_ℤ query_limit n)) [
            | inl above ↦ simp above (λ h. absurd (cc (h)))
            | inr within ↦ simp within (elim (Bool-cases (ltb_ℤ (pos 0) n)) [
              | inl p ↦ simp p (λ h.
                  subst (λ l. (pos l ≤ℤ query_limit) ⊎ (l ≡ start)) (ok_inj h)
                    (inl (limit_bound query_limit n within p)))
              | inr z ↦ simp z (λ h. inr (sym (ok_inj h)))
            ])
          ])
  ])
]

read_ids-cases :
    (form : Form) (ids : List String) (start : ℕ)
    → read_ids form ≡ ok (ids, start)
    → ((start ≡ 10) × (form.id ≡ none)) ⊎ (start ≡ 0)
unfolding read_ids
read_ids-cases form ids start = elim (Option-cases form.id) [
  | inl e ↦ simp (e, read_ids) (λ h. inl (sym (ap (λ p. p.1) (ok_inj h)), refl))
  | inr (given, e) ↦
      simp (e, read_ids)
        (elim (Bool-cases (all verifies given)) [
          | inl v ↦ simp v (λ h. inr (sym (ap (λ p. p.1) (ok_inj h))))
          | inr u ↦ simp u (λ h. absurd (cc (h)))
        ])
]

abbrev pub AllowedLimit : ℤ → Form → ℕ → Type 0
AllowedLimit query_limit form limit =
    (pos limit ≤ℤ query_limit) ⊎ (((limit ≡ 10) × (form.id ≡ none)) ⊎ (limit ≡ 0))

limit_of_cases :
    (query_limit : ℤ) (form : Form) (start limit : ℕ)
    → (pos limit ≤ℤ query_limit) ⊎ (limit ≡ start)
    → ((start ≡ 10) × (form.id ≡ none)) ⊎ (start ≡ 0)
    → AllowedLimit query_limit form limit
limit_of_cases query_limit form start limit (inl b) ids = inl b
limit_of_cases query_limit form start limit (inr q) (inl (d, n)) = inr (inl (q ∙ d, n))
limit_of_cases query_limit form start limit (inr q) (inr z) = inr (inr (q ∙ z))

read_query-cases :
    (query_limit : ℤ) (form : Form) (q : ReceiptQuery) (written : List Response)
    → read_query query_limit form ≡ ok (q, written)
    → AllowedLimit query_limit form q.limit
      × (written ≡ complaint (read_since form).1)
      × (q.since ≡ (read_since form).0)
unfolding read_query
read_query-cases query_limit form q written = elim (Result-cases (read_ids form)) [
  | inl (e, i) ↦ simp (i, read_query) (λ h. absurd (cc (h)))
  | inr ((ids, start), i) ↦
      simp (i, read_query)
        (elim (Result-cases (read_limit query_limit form.limit start)) [
          | inl (e, l) ↦ simp (l, read_query) (λ h. absurd (cc (h)))
          | inr (limit, l) ↦
              simp (l, read_query)
                (elim (Result-cases (read_skip form.skip)) [
                  | inl (e, s) ↦ simp (s, read_query) (λ h. absurd (cc (h)))
                  | inr (skip, s) ↦
                      simp (s, read_query)
                        (λ h.
                          let same : limit ≡ q.limit = ap (λ p. p.0.limit) (ok_inj h) in
                          (
                            subst (AllowedLimit query_limit form) same (
                                limit_of_cases query_limit form start limit
                                  (read_limit-cases query_limit form.limit start limit l)
                                  (read_ids-cases form ids start i)),
                            sym (ap (λ p. p.1) (ok_inj h)),
                            sym (ap (λ p. p.0.since) (ok_inj h)),
                          ))
                ])
        ])
]

-- A query that is made asks for at most the configured number of receipts, for the default number, or
-- for any number where ids are given.
pub read_query-limit :
    (query_limit : ℤ) (form : Form) (q : ReceiptQuery) (written : List Response)
    → read_query query_limit form ≡ ok (q, written)
    → AllowedLimit query_limit form q.limit
read_query-limit query_limit form q written h = (read_query-cases query_limit form q written h).0

-- A text that is neither a time nor a number of 64 bits.
abbrev pub NoTime : Form → Type 0
NoTime form =
    ((form.since == "") ≡ false)
    × (form.parse_time form.since ≡ none)
    × (parse_int 64 form.since ≡ none)

-- What the client gets of the persistence.
abbrev pub answer : Result (List Fields) → Response
answer (ok rs) = receipts rs
answer (err e) = rest_error 500 ErrorId.receipt_store_failed_query
