-- ===== src/Eth/HexText.antt =====
-- Hexadecimal texts of bytes that are read back, for the tests.
use Prim.Native.Char.{Char, code}
use Prim.Native.String.{String, [], ◌∷◌}
use mathlib.Core.List
use zeroxyz.Prelude.{
  ℕ, zero, suc, ◌+◌, ◌*◌, ◌/◌, ◌%◌, ◌<◌, Option, some, ◌≡◌, refl, ap, ◌∙◌, arith, All,
}
use zeroxyz.Eth.Hex.{hex_digit}

unfoldable hex_char : ℕ → Char
hex_char zero = "0"
hex_char (suc zero) = "1"
hex_char (suc (suc zero)) = "2"
hex_char (suc (suc (suc zero))) = "3"
hex_char (suc (suc (suc (suc zero)))) = "4"
hex_char (suc (suc (suc (suc (suc zero))))) = "5"
hex_char (suc (suc (suc (suc (suc (suc zero)))))) = "6"
hex_char (suc (suc (suc (suc (suc (suc (suc zero))))))) = "7"
hex_char (suc (suc (suc (suc (suc (suc (suc (suc zero)))))))) = "8"
hex_char (suc (suc (suc (suc (suc (suc (suc (suc (suc zero))))))))) = "9"
hex_char (suc (suc (suc (suc (suc (suc (suc (suc (suc (suc zero)))))))))) = "a"
hex_char (suc (suc (suc (suc (suc (suc (suc (suc (suc (suc (suc zero))))))))))) = "b"
hex_char (suc (suc (suc (suc (suc (suc (suc (suc (suc (suc (suc (suc zero)))))))))))) = "c"
hex_char (suc (suc (suc (suc (suc (suc (suc (suc (suc (suc (suc (suc (suc zero))))))))))))) = "d"
hex_char (suc (suc (suc (suc (suc (suc (suc (suc (suc (suc (suc (suc (suc (suc zero)))))))))))))) =
    "e"
hex_char _ = "f"

read_char : (d : ℕ) → d < 16 → hex_digit (code (hex_char d)) ≡ some d
unfolding hex_char hex_digit
read_char zero h = refl
read_char (suc zero) h = refl
read_char (suc (suc zero)) h = refl
read_char (suc (suc (suc zero))) h = refl
read_char (suc (suc (suc (suc zero)))) h = refl
read_char (suc (suc (suc (suc (suc zero))))) h = refl
read_char (suc (suc (suc (suc (suc (suc zero)))))) h = refl
read_char (suc (suc (suc (suc (suc (suc (suc zero))))))) h = refl
read_char (suc (suc (suc (suc (suc (suc (suc (suc zero)))))))) h = refl
read_char (suc (suc (suc (suc (suc (suc (suc (suc (suc zero))))))))) h = refl
read_char (suc (suc (suc (suc (suc (suc (suc (suc (suc (suc zero)))))))))) h = refl
read_char (suc (suc (suc (suc (suc (suc (suc (suc (suc (suc (suc zero))))))))))) h = refl
read_char (suc (suc (suc (suc (suc (suc (suc (suc (suc (suc (suc (suc zero)))))))))))) h = refl
read_char (suc (suc (suc (suc (suc (suc (suc (suc (suc (suc (suc (suc (suc zero))))))))))))) h =
    refl
read_char (suc (suc (suc (suc (suc (suc (suc (suc (suc (suc (suc (suc (suc (suc zero))))))))))))))
      h =
    refl
read_char
      (suc (suc (suc (suc (suc (suc (suc (suc (suc (suc (suc (suc (suc (suc (suc zero)))))))))))))))
      h =
    refl
read_char
      (suc
        (suc (suc (suc (suc (suc (suc (suc (suc (suc (suc (suc (suc (suc (suc (suc n))))))))))))))))
      h =
    absurd (omega arith)

unfoldable encode : List.List ℕ → String
unfolding hex_char
encode List.[] = []
encode (List.◌∷◌ b bs) = hex_char (b / 16) ∷ hex_char (b % 16) ∷ encode bs

-- As common.ToHex, which writes "0x0" for no bytes.
unfoldable pub byte_texts : List.List ℕ → String
unfolding encode
byte_texts List.[] = "0x0"
byte_texts (List.◌∷◌ b bs) = "0" ∷ "x" ∷ encode (List.◌∷◌ b bs)

with_byte : Option ℕ → Option ℕ → List.List ℕ → List.List ℕ
with_byte (some m) (some n) bs = List.◌∷◌ (m * 16 + n) bs
with_byte _ _ bs = List.[]

decode : String → List.List ℕ
unfolding with_byte hex_digit
decode [] = List.[]
decode (c ∷ []) = List.[]
decode (c ∷ d ∷ s) = with_byte (hex_digit (code c)) (hex_digit (code d)) (decode s)

unfoldable pub text_bytes : String → List.List ℕ
unfolding decode
text_bytes [] = List.[]
text_bytes (c ∷ []) = List.[]
text_bytes (c ∷ d ∷ s) = decode s

decode-encode : (bs : List.List ℕ) → All (λ b. b < 256) bs → decode (encode bs) ≡ bs
unfolding decode encode with_byte
decode-encode List.[] h = refl
decode-encode (List.◌∷◌ b bs) h =
    (λ i.
      with_byte (read_char (b / 16) (omega (arith, h.0)) i) (read_char (b % 16) (omega arith) i)
        (decode-encode bs h.1 i))
    ∙ ap (λ k. List.◌∷◌ k bs) (omega arith)

pub text_bytes-byte_texts :
    (b : ℕ) (bs : List.List ℕ)
    → All (λ b. b < 256) (List.◌∷◌ b bs)
    → text_bytes (byte_texts (List.◌∷◌ b bs)) ≡ List.◌∷◌ b bs
unfolding text_bytes byte_texts
text_bytes-byte_texts b bs h = decode-encode (List.◌∷◌ b bs) h
