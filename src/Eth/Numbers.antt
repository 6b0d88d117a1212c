-- ===== src/Eth/Numbers.antt =====
-- getInteger, getUnsignedInteger and getBigInteger of txn.go, with Go's conversions of integers.
use zeroxyz.Prelude.{
  ℕ, suc, ◌+◌, ◌-◌, ◌%◌, ◌^◌, Option, none, some, Bool, ltb, leb, eqb, if◌then◌else◌, ◌||◌,
}
use zeroxyz.Prelude.Int.{ℤ, pos, negsuc, max_int64}
use zeroxyz.Prelude.ParseInt.{parse_int, parse_uint, parse_big}
use zeroxyz.Errors.{ErrorId}
use zeroxyz.Eth.Types.{Float64, Param, text, float, Library, Run, done, refuse}

-- int8(i), int16(i), int32(i) and int64(i) of an int64
unfoldable pub to_signed : ℕ → ℤ → ℤ
to_signed bits (pos n) =
    let r = n % 2 ^ bits in if ltb r (2 ^ (bits - 1)) then pos r else negsuc (2 ^ bits - suc r)
to_signed bits (negsuc n) =
    let r = n % 2 ^ bits in if ltb r (2 ^ (bits - 1)) then negsuc r else pos (2 ^ bits - suc r)

-- int64(f) and uint64(f) of a float64
unfoldable pub int64_of_float : Library → Float64 → ℤ
int64_of_float lib f =
    if f.negative
    then if eqb f.whole 0
      then pos 0
      else if leb f.whole (max_int64 + 1)
      then negsuc (f.whole - 1)
      else lib.int64_overflow f
    else if leb f.whole max_int64
    then pos f.whole
    else lib.int64_overflow f

unfoldable pub uint64_of_float : Library → Float64 → ℕ
uint64_of_float lib f =
    if f.negative
    then if eqb f.whole 0 then 0 else lib.uint64_overflow f
    else if ltb f.whole (2 ^ 64)
    then f.whole
    else lib.uint64_overflow f

abbrev pub number_or_refuse : {A : Type 0} → Option A → Run A
number_or_refuse none = refuse ErrorId.transaction_send_input_type_bad_number
number_or_refuse (some n) = done n

unfoldable pub get_integer : Library → Param → Run ℤ
unfolding int64_of_float
get_integer lib (text s) = number_or_refuse (parse_int 64 s)
get_integer lib (float f) = done (int64_of_float lib f)
get_integer lib _ = refuse ErrorId.transaction_send_input_type_bad_json_type_for_number

unfoldable pub get_unsigned_integer : Library → Param → Run ℕ
unfolding uint64_of_float
get_unsigned_integer lib (text s) = number_or_refuse (parse_uint 64 s)
get_unsigned_integer lib (float f) = done (uint64_of_float lib f)
get_unsigned_integer lib _ = refuse ErrorId.transaction_send_input_type_bad_json_type_for_number

unfoldable pub get_big_integer : Library → Param → Run ℤ
unfolding int64_of_float
get_big_integer lib (text s) = number_or_refuse (parse_big s)
get_big_integer lib (float f) = done (int64_of_float lib f)
get_big_integer lib _ = refuse ErrorId.transaction_send_input_type_bad_json_type_for_number

-- The sizes that have a Go type of their own.
abbrev pub is_word : ℕ → Bool
is_word n = eqb n 8 || eqb n 16 || eqb n 32 || eqb n 64
