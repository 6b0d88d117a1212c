-- ===== src/Prelude/ReadBack.antt =====
-- Numbers printed in decimal are read back.
use Prim.Native.Char.{code}
use Prim.Native.String.{String, [], ◌∷◌}
use zeroxyz.Prelude.Tests.{ltb, leb, if◌then◌else◌, Bool-cases, ltb→lt}
use zeroxyz.Prelude.Int.{ℤ, pos, negsuc, ◌≤ℤ◌}
use zeroxyz.Prelude.Decimal.{digit, print_digits, decimal, decimal_ℤ}
use zeroxyz.Prelude.ParseInt.{
  read_digits, read_uint, positive, negative, opposite, parse_int, parse_uint, parse_big,
}
use Prim.Native.Nat.{ℕ, zero, suc, ◌+◌, ◌*◌, ◌/◌, ◌%◌, ◌^◌, ◌<◌}
use mathlib.Core.Path.{◌≡◌, refl, ap, ◌∙◌}
use mathlib.Core.Logic.{inl, inr}
use mathlib.Core.Bool.{Bool, true, false, ◌&&◌}
use mathlib.Core.Option.{Option, none, some}
use native.Mathlib.Omega.{arith}

read_digits-digit :
    (a d : ℕ) (out : String) → d < 10 → read_digits a (digit d ∷ out) ≡ read_digits (a * 10 + d) out
unfolding read_digits digit
read_digits-digit a zero out h = refl
read_digits-digit a (suc zero) out h = refl
read_digits-digit a (suc (suc zero)) out h = refl
read_digits-digit a (suc (suc (suc zero))) out h = refl
read_digits-digit a (suc (suc (suc (suc zero)))) out h = refl
read_digits-digit a (suc (suc (suc (suc (suc zero))))) out h = refl
read_digits-digit a (suc (suc (suc (suc (suc (suc zero)))))) out h = refl
read_digits-digit a (suc (suc (suc (suc (suc (suc (suc zero))))))) out h = refl
read_digits-digit a (suc (suc (suc (suc (suc (suc (suc (suc zero)))))))) out h = refl
read_digits-digit a (suc (suc (suc (suc (suc (suc (suc (suc (suc zero))))))))) out h = refl
read_digits-digit a (suc (suc (suc (suc (suc (suc (suc (suc (suc (suc n)))))))))) out h =
    absurd (omega arith)

read_digits-print_digits :
    (fuel n : ℕ) (out : String)
    → n < fuel
    → read_digits 0 (print_digits fuel n out) ≡ read_digits n out
unfolding print_digits
read_digits-print_digits zero n out h = absurd (omega arith)
read_digits-print_digits (suc fuel) n out h = elim (Bool-cases (ltb n 10)) [
  | inl e ↦
      rw (e, if◌then◌else◌)
        (read_digits-digit 0 n out (ltb→lt n 10 e) ∙ ap (λ k. read_digits k out) (omega arith))
  | inr e ↦
      rw (e, if◌then◌else◌)
        (read_digits-print_digits fuel (n / 10) (digit (n % 10) ∷ out) (ground arith)
          ∙ read_digits-digit (n / 10) (n % 10) out (omega arith)
          ∙ ap (λ k. read_digits k out) (omega arith))
]

starts_digit : String → Bool
starts_digit [] = false
starts_digit (c ∷ s) = leb b'0' (code c) && leb (code c) b'9'

digit-starts_digit : (d : ℕ) (out : String) → starts_digit (digit d ∷ out) ≡ true
unfolding starts_digit digit
digit-starts_digit zero out = refl
digit-starts_digit (suc zero) out = refl
digit-starts_digit (suc (suc zero)) out = refl
digit-starts_digit (suc (suc (suc zero))) out = refl
digit-starts_digit (suc (suc (suc (suc zero)))) out = refl
digit-starts_digit (suc (suc (suc (suc (suc zero))))) out = refl
digit-starts_digit (suc (suc (suc (suc (suc (suc zero)))))) out = refl
digit-starts_digit (suc (suc (suc (suc (suc (suc (suc zero))))))) out = refl
digit-starts_digit (suc (suc (suc (suc (suc (suc (suc (suc zero)))))))) out = refl
digit-starts_digit _ out = refl

print_digits-starts_digit :
    (fuel n : ℕ) (out : String)
    → starts_digit out ≡ true
    → starts_digit (print_digits fuel n out) ≡ true
unfolding print_digits
print_digits-starts_digit zero n out h = h
print_digits-starts_digit (suc fuel) n out h = elim (Bool-cases (ltb n 10)) [
  | inl e ↦ rw (e, if◌then◌else◌) (digit-starts_digit n out)
  | inr e ↦
      rw (e, if◌then◌else◌)
        (print_digits-starts_digit fuel (n / 10) (digit (n % 10) ∷ out)
          (digit-starts_digit (n % 10) out))
]

decimal-starts_digit : (n : ℕ) → starts_digit (decimal n) ≡ true
unfolding decimal print_digits
decimal-starts_digit n = elim (Bool-cases (ltb n 10)) [
  | inl e ↦ rw (e, if◌then◌else◌) (digit-starts_digit n "")
  | inr e ↦
      rw (e, if◌then◌else◌)
        (print_digits-starts_digit n (n / 10) (digit (n % 10) ∷ "")
          (digit-starts_digit (n % 10) ""))
]

read_digits-decimal : (n : ℕ) → read_digits 0 (decimal n) ≡ some n
unfolding decimal read_digits
read_digits-decimal n = read_digits-print_digits (suc n) n "" (omega arith)

unsigned_text : (s : String) → starts_digit s ≡ true → read_uint s ≡ read_digits 0 s
unfolding starts_digit read_uint
unsigned_text [] h = absurd (cc)
unsigned_text (c ∷ s) h = refl

read_uint-decimal : (n : ℕ) → read_uint (decimal n) ≡ some n
read_uint-decimal n = unsigned_text (decimal n) (decimal-starts_digit n) ∙ read_digits-decimal n

parse_int_digits : (s : String) → starts_digit s ≡ true → parse_int 64 s ≡ positive 64 (read_uint s)
unfolding starts_digit parse_int
parse_int_digits [] h = absurd (cc)
parse_int_digits (c ∷ s) h = ground arith

parse_big_digits :
    (s : String) (n : ℕ) → starts_digit s ≡ true → read_uint s ≡ some n → parse_big s ≡ some (pos n)
unfolding starts_digit parse_big
parse_big_digits [] n h e = absurd (cc)
parse_big_digits (c ∷ s) n h e = ground arith

within_64 :
    (o : Option ℕ) (n : ℕ)
    → o ≡ some n
    → n < 2 ^ 64
    → Path
        (Option ℕ)
        (elim o [ none ↦ none | some n ↦ if ltb n (2 ^ 64) then some n else none ])
        (some n)
within_64 o n e h = ground arith

pub parse_uint-decimal : (n : ℕ) → n < 2 ^ 64 → parse_uint 64 (decimal n) ≡ some n
unfolding parse_uint
parse_uint-decimal n h = within_64 (read_uint (decimal n)) n (read_uint-decimal n) h

pub parse_int-decimal_ℤ :
    (z : ℤ)
    → negsuc 9223372036854775807 ≤ℤ z
    → z ≤ℤ pos 9223372036854775807
    → parse_int 64 (decimal_ℤ z) ≡ some z
unfolding decimal_ℤ positive negative parse_int
parse_int-decimal_ℤ (pos n) h k =
    parse_int_digits (decimal n) (decimal-starts_digit n)
    ∙ ap (positive 64) (read_uint-decimal n)
    ∙ ground arith
parse_int-decimal_ℤ (negsuc n) h k = ap (negative 64) (read_uint-decimal (suc n)) ∙ ground arith

pub parse_big-decimal_ℤ : (z : ℤ) → parse_big (decimal_ℤ z) ≡ some z
unfolding decimal_ℤ opposite parse_big
parse_big-decimal_ℤ (pos n) =
    parse_big_digits (decimal n) n (decimal-starts_digit n) (read_uint-decimal n)
parse_big-decimal_ℤ (negsuc n) = ap opposite (read_uint-decimal (suc n)) ∙ ground arith
