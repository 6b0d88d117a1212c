-- ===== src/Eth/Revert.antt =====
-- Where the decoding of a revert in Call panics.
use Prim.Native.String.{len, slice}
use zeroxyz.Eth.Hex.{decodes}
use zeroxyz.Prelude.{
  ℕ, ◌<◌, ◌≤◌, ◌+◌, ◌*◌, ◌%◌, ◌^◌, ◌⊎◌, String, List, Option, Bool, true, false, ◌||◌, ◌≡◌, refl,
  ap, arith, ◌↔◌, inl, inr, Bool-cases, ltb, leb, eqb, eq_iff, ◌==◌, string_key, if◌then◌else◌,
}
use zeroxyz.Errors.{Error}
use zeroxyz.Eth.Types.{Run, fails, panicked, Library}
use zeroxyz.Eth.Send.{Node, is_revert, revert_reply, error_string_len, hex_string_end, call_reply}

-- The places are those of a text of more than 138.
panics_below :
    (l e : ℕ) (d : ℕ → Bool) (x y : Error)
    → 138 < l
    → (Path
        (Run (Option (List ℕ)))
        (let last = if ltb l e then l else e in
          if ltb last 138 then panicked else if d last then fails x else fails y)
        panicked)
      ↔ (e < 138)
panics_below l e d x y h = elim (Bool-cases (ltb l e)) [
  | inl a ↦ elim (Bool-cases (d l)) [
    | inl b ↦ simp (a, b, above, if◌then◌else◌) (λ k. absurd (cc (k)), λ k. absurd (ground arith))
    | inr b ↦ simp (a, b, above, if◌then◌else◌) (λ k. absurd (cc (k)), λ k. absurd (ground arith))
  ]
  | inr a ↦ elim (Bool-cases (ltb e 138)) [
    | inl c ↦ simp (a, c, if◌then◌else◌) (λ k. ground arith, λ k. refl)
    | inr c ↦ elim (Bool-cases (d e)) [
      | inl b ↦ simp (a, b, c, if◌then◌else◌) (λ k. absurd (cc (k)), λ k. absurd (ground arith))
      | inr b ↦ simp (a, b, c, if◌then◌else◌) (λ k. absurd (cc (k)), λ k. absurd (ground arith))
    ]
  ]
]
  where
    above : ltb l 138 ≡ false
    above = ground arith

revert_panics :
    (node : Node) (s : String)
    → is_revert s ≡ true
    → (revert_reply node s ≡ panicked) ↔ (hex_string_end node s < 138)
unfolding revert_reply is_revert
revert_panics node s h =
    panics_below (len s) (hex_string_end node s) (λ k. decodes (slice s 138 k)) _ _ (ground arith)

is_revert-0x : is_revert "0x" ≡ false
unfolding is_revert
is_revert-0x = refl

is_revert-long : (s : String) → is_revert s ≡ true → (eqb (len s) 0 || false) ≡ false
unfolding is_revert
is_revert-long s h = ground arith

not_empty : (s : String) → is_revert s ≡ true → (eqb (len s) 0 || (s == "0x")) ≡ false
not_empty s h = elim (Bool-cases (s == "0x")) [
  | inl e ↦ let same = (eq_iff s "0x").0 e in absurd (cc (h, is_revert-0x, ap is_revert same))
  | inr e ↦ simp e (is_revert-long s h)
]

-- The lengths below 2 ^ 64 whose double plus 138 passes a multiple of 2 ^ 64 by less than 138.
abbrev pub Overflows : ℕ → Type 0
Overflows n = ((2 ^ 63 ≤ n + 69) × (n < 2 ^ 63)) ⊎ ((2 ^ 64 ≤ n + 69) × (n < 2 ^ 64))

wraps_iff : (n : ℕ) → n < 2 ^ 64 → ((n * 2 + 138) % 2 ^ 64 < 138) ↔ Overflows n
wraps_iff n h = (
  λ k. elim (Bool-cases (leb (2 ^ 63) n)) [
    | inl above ↦ inr (ground arith, h)
    | inr below ↦ inl (ground arith, ground arith)
  ],
  λ k. elim k [ inl (a, b) ↦ omega (arith, a, b) | inr (a, b) ↦ omega (arith, a, b) ],
)

hex_string_end_iff :
    (node : Node) (s : String)
    → (hex_string_end node s < 138) ↔ Overflows (error_string_len node s % 2 ^ 64)
unfolding hex_string_end
hex_string_end_iff node s = wraps_iff (error_string_len node s % 2 ^ 64) (omega arith)

-- Call panics on the text that a node answered exactly when the text begins with the selector of
-- Error(string) and has more than 138 places, and the length that it declares, cut to 64 bits, is
-- one of the 69 below 2 ^ 63 or of the 69 below 2 ^ 64: twice such a length plus 138 wraps on uint64
-- to less than 138.
pub call_reply_panics :
    (lib : Library) (node : Node) (s : String)
    → (call_reply lib node s ≡ panicked)
      ↔ ((is_revert s ≡ true) × Overflows (error_string_len node s % 2 ^ 64))
unfolding call_reply
call_reply_panics lib node s = elim (Bool-cases (is_revert s)) [
  | inl r ↦
      simp (not_empty s r, r, if◌then◌else◌)
        (
          λ h. (refl, (hex_string_end_iff node s).0 ((revert_panics node s r).0 h)),
          λ h. (revert_panics node s r).1 ((hex_string_end_iff node s).1 h.1),
        )
  | inr r ↦ elim (Bool-cases (eqb (len s) 0 || (s == "0x"))) [
    | inl e ↦ simp (e, r, if◌then◌else◌) (λ h. absurd (cc (h)), λ h. absurd (cc (h.0)))
    | inr e ↦ simp (e, r, if◌then◌else◌) (λ h. absurd (cc (h)), λ h. absurd (cc (h.0)))
  ]
]
