-- ===== src/Prelude/ParseInt.antt =====
-- strconv.ParseInt and ParseUint and SetString of big.Int, in base ten.
use Prim.Native.Nat.{ℕ, ◌+◌, ◌-◌, ◌*◌, ◌^◌}
use Prim.Native.Char.{code}
use Prim.Native.String.{String, [], ◌∷◌}
use mathlib.Core.Path.{◌≡◌, refl}
use mathlib.Core.Option.{Option, none, some}
use mathlib.Core.Bool.{◌&&◌}
use zeroxyz.Prelude.Tests.{ltb, leb, eqb, if◌then◌else◌}
use zeroxyz.Prelude.Int.{ℤ, pos, negsuc}

unfoldable pub read_digits : ℕ → String → Option ℕ
read_digits n [] = some n
read_digits n (c ∷ s) =
    let rest = read_digits (n * 10 + (code c - b'0')) s in
    if leb b'0' (code c) && leb (code c) b'9' then rest else none

unfoldable pub read_uint : String → Option ℕ
unfolding read_digits
read_uint [] = none
read_uint (c ∷ s) = read_digits 0 (c ∷ s)

unfoldable pub positive : ℕ → Option ℕ → Option ℤ
positive bits none = none
positive bits (some n) = if ltb n (2 ^ (bits - 1)) then some (pos n) else none

unfoldable pub negative : ℕ → Option ℕ → Option ℤ
negative bits none = none
negative bits (some n) =
    if leb n (2 ^ (bits - 1)) then some (if eqb n 0 then pos 0 else negsuc (n - 1)) else none

-- `none` is a syntax or a range error.
unfoldable pub parse_int : ℕ → String → Option ℤ
unfolding read_uint positive negative
parse_int bits [] = none
parse_int bits (c ∷ s) =
    if eqb (code c) b'-'
    then negative bits (read_uint s)
    else if eqb (code c) b'+'
    then positive bits (read_uint s)
    else positive bits (read_uint (c ∷ s))

-- strconv.ParseUint in base ten; a sign is a syntax error.
unfoldable pub parse_uint : ℕ → String → Option ℕ
unfolding read_uint
parse_uint bits s = elim (read_uint s) [
  | none ↦ none
  | some n ↦ if ltb n (2 ^ bits) then some n else none
]

unfoldable pub opposite : Option ℕ → Option ℤ
opposite none = none
opposite (some n) = some (if eqb n 0 then pos 0 else negsuc (n - 1))

-- SetString of big.Int in base ten.
unfoldable pub parse_big : String → Option ℤ
unfolding read_uint opposite
parse_big [] = none
parse_big (c ∷ s) =
    if eqb (code c) b'-'
    then opposite (read_uint s)
    else if eqb (code c) b'+'
    then elim (read_uint s) [ none ↦ none | some n ↦ some (pos n) ]
    else elim (read_uint (c ∷ s)) [ none ↦ none | some n ↦ some (pos n) ]

parse_int_negative : parse_int 64 "-12" ≡ some (negsuc 11)
unfolding parse_int
parse_int_negative = refl

parse_int_range : parse_int 64 "9223372036854775808" ≡ none
unfolding parse_int
parse_int_range = refl

parse_int_syntax : parse_int 32 "1e3" ≡ none
unfolding parse_int
parse_int_syntax = refl
