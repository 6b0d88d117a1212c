-- ===== src/Eth/Hex.antt =====
-- Go's reading of hexadecimal texts, as send.go uses it: SetString of big.Int in base 16, and
-- hex.DecodeString.
use Prim.Native.Char.{code}
use Prim.Native.String.{String, [], ◌∷◌}
use zeroxyz.Prelude.{
  ℕ, ◌+◌, ◌-◌, ◌*◌, Option, none, some, Bool, true, false, ◌&&◌, leb, if◌then◌else◌,
}

-- One digit in base 16.
unfoldable pub hex_digit : ℕ → Option ℕ
hex_digit c =
    if leb b'0' c && leb c b'9'
    then some (c - b'0')
    else if leb b'a' c && leb c b'f'
    then some (c - b'a' + 10)
    else if leb b'A' c && leb c b'F'
    then some (c - b'A' + 10)
    else none

unfoldable pub read_hex : ℕ → String → Option ℕ
unfolding hex_digit
read_hex n [] = some n
read_hex n (c ∷ s) = elim (hex_digit (code c)) [ none ↦ none | some d ↦ read_hex (n * 16 + d) s ]

-- Whether hex.DecodeString takes a text.
unfoldable pub decodes : String → Bool
decodes [] = true
decodes (c ∷ []) = false
decodes (c ∷ d ∷ s) =
    let rest = decodes s in
    elim (hex_digit (code c)) [
      | none ↦ false
      | some m ↦ elim (hex_digit (code d)) [ none ↦ false | some n ↦ rest ]
    ]
