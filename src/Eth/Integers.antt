-- ===== src/Eth/Integers.antt =====
-- Integers printed in decimal are read back as arguments.
use zeroxyz.Prelude.{
  ℕ, ◌-◌, ◌%◌, ◌^◌, ◌<◌, true, false, ◌≡◌, refl, subst, arith, inl, inr, Bool-cases, if◌then◌else◌,
  leb, eqb,
}
use zeroxyz.Prelude.Int.{ℤ, pos, negsuc, ◌≤ℤ◌}
use zeroxyz.Prelude.Decimal.{decimal, decimal_ℤ}
use zeroxyz.Prelude.ReadBack.{parse_uint-decimal, parse_int-decimal_ℤ, parse_big-decimal_ℤ}
use zeroxyz.Eth.Types.{text, int_val, uint_val, big_val, done, Library}
use zeroxyz.Eth.Numbers.{to_signed, is_word, get_integer, get_unsigned_integer, get_big_integer}
use zeroxyz.Eth.Args.{typed_int, typed_uint}

-- A number of n bits, with its sign.
abbrev pub InSigned : ℕ → ℤ → Type 0
InSigned n (pos k) = k < 2 ^ (n - 1)
InSigned n (negsuc k) = k < 2 ^ (n - 1)

-- What holds at the four sizes that have a Go type holds at every such size.
word_elim : (P : ℕ → Type 0) → P 8 → P 16 → P 32 → P 64 → (n : ℕ) → is_word n ≡ true → P n
word_elim P a b c d n h = elim (Bool-cases (eqb n 8)) [
  | inl e ↦ subst P (ground arith) a
  | inr e₁ ↦ elim (Bool-cases (eqb n 16)) [
    | inl e ↦ subst P (ground arith) b
    | inr e₂ ↦ elim (Bool-cases (eqb n 32)) [
      | inl e ↦ subst P (ground arith) c
      | inr e₃ ↦ subst P (ground arith) d
    ]
  ]
]

word_le : (n : ℕ) → is_word n ≡ true → leb n 64 ≡ true
word_le n h = ground arith

abbrev Small : ℕ → Type 0
Small n =
    (z : ℤ)
    → InSigned n z
    → (to_signed n z ≡ z) × ((negsuc 9223372036854775807 ≤ℤ z) × (z ≤ℤ pos 9223372036854775807))

at_8 : Small 8
unfolding to_signed
at_8 (pos k) h = (ground arith, (omega arith, omega arith))
at_8 (negsuc k) h = (ground arith, (omega arith, omega arith))

at_16 : Small 16
unfolding to_signed
at_16 (pos k) h = (ground arith, (omega arith, omega arith))
at_16 (negsuc k) h = (ground arith, (omega arith, omega arith))

at_32 : Small 32
unfolding to_signed
at_32 (pos k) h = (ground arith, (omega arith, omega arith))
at_32 (negsuc k) h = (ground arith, (omega arith, omega arith))

at_64 : Small 64
unfolding to_signed
at_64 (pos k) h = (ground arith, (omega arith, omega arith))
at_64 (negsuc k) h = (ground arith, (omega arith, omega arith))

small : (n : ℕ) → is_word n ≡ true → Small n
small = word_elim Small at_8 at_16 at_32 at_64

small_unsigned : (n : ℕ) → is_word n ≡ true → (k : ℕ) → k < 2 ^ n → (k % 2 ^ n ≡ k) × (k < 2 ^ 64)
small_unsigned =
    word_elim (λ n. (k : ℕ) → k < 2 ^ n → (k % 2 ^ n ≡ k) × (k < 2 ^ 64))
      (λ k h. (omega arith, omega arith)) (λ k h. (omega arith, omega arith))
      (λ k h. (omega arith, omega arith)) (λ k h. (omega arith, omega arith))

module _ (lib : Library) where
  pub typed_int-decimal_ℤ :
      (n : ℕ) (z : ℤ)
      → is_word n ≡ true
      → InSigned n z
      → typed_int lib n (text (decimal_ℤ z)) ≡ done (int_val n z)
  unfolding typed_int get_integer
  typed_int-decimal_ℤ n z w h =
      let s = small n w z h in
      simp (word_le n w, w, if◌then◌else◌, parse_int-decimal_ℤ z s.1.0 s.1.1, s.0) refl

  pub typed_int_big :
      (n : ℕ) (z : ℤ)
      → is_word n ≡ false
      → (leb n 64 ≡ true → InSigned 64 z)
      → typed_int lib n (text (decimal_ℤ z)) ≡ done (big_val z)
  unfolding typed_int get_integer get_big_integer
  typed_int_big n z w h = elim (Bool-cases (leb n 64)) [
    | inl e ↦
        let s = at_64 z (h e) in
        simp (e, w, if◌then◌else◌, parse_int-decimal_ℤ z s.1.0 s.1.1, parse_big-decimal_ℤ z) refl
    | inr e ↦ simp (e, if◌then◌else◌, parse_big-decimal_ℤ z) refl
  ]

  pub typed_uint-decimal :
      (n k : ℕ)
      → is_word n ≡ true
      → k < 2 ^ n
      → typed_uint lib n (text (decimal k)) ≡ done (uint_val n k)
  unfolding typed_uint get_unsigned_integer
  typed_uint-decimal n k w h =
      let s = small_unsigned n w k h in
      simp (word_le n w, w, if◌then◌else◌, parse_uint-decimal k s.1, s.0) refl

  pub typed_uint_big :
      (n k : ℕ)
      → is_word n ≡ false
      → (leb n 64 ≡ true → k < 2 ^ 64)
      → typed_uint lib n (text (decimal_ℤ (pos k))) ≡ done (big_val (pos k))
  unfolding typed_uint get_unsigned_integer get_big_integer decimal_ℤ
  typed_uint_big n k w h = elim (Bool-cases (leb n 64)) [
    | inl e ↦
        simp (e, w, if◌then◌else◌, parse_uint-decimal k (h e), parse_big-decimal_ℤ (pos k)) refl
    | inr e ↦ simp (e, if◌then◌else◌, parse_big-decimal_ℤ (pos k)) refl
  ]
