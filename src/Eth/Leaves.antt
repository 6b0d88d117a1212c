-- ===== src/Eth/Leaves.antt =====
-- The values that generateTypedArg makes of numbers, texts, bytes and arrays have the type asked for.
use zeroxyz.Prelude.{
  ℕ, zero, suc, true, false, ◌≡◌, refl, ap, subst, sym, arith, inl, inr, Bool-cases, List, [], ◌∷◌,
  if◌then◌else◌, leb,
}
use zeroxyz.Eth.Types.{
  AbiType, int_ty, uint_ty, bool_ty, string_ty, address_ty, Param, nil, boolean, text, items,
  Params, no_params, param, GoType, go_uint, go_slice, go_array, go_struct, GoFields, no_go_fields,
  go_field, Value, type_of, count_values, assignable, Run, done, ◌>>=◌, Library,
}
use zeroxyz.Eth.Numbers.{is_word, get_integer, get_unsigned_integer, get_big_integer}
use zeroxyz.Eth.Args.{
  typed, typed_int, typed_uint, typed_bool, typed_string, typed_address, typed_bytes, read_bytes,
  byte_sequence, byte_values, is_array, fill, copies, zero_of, zero_fields, unless_nil, go_fields,
}
use zeroxyz.Eth.Post.{Post, returns, stops, panics, ◌⟫◌}
use zeroxyz.Eth.Fits.{IsDocumented, is_bytes, Fits, IsTyped, AreTyped, FieldsTyped, assignable_refl}

abbrev pub Good : Library → AbiType → Value → Type 0
Good lib t v = Fits lib t v × IsTyped v

-- Any run has a postcondition that says nothing.
pub anything : {A : Type 0} (r : Run A) → Post Unit (λ _. Unit) r
anything (done a) = returns tt
anything (Run.fails e) = stops
anything Run.panicked = panics tt

copies-AreTyped :
    (n : ℕ) (t : GoType) (v : Value)
    → assignable (type_of v) t ≡ true
    → IsTyped v
    → AreTyped t (copies n v)
unfolding copies AreTyped
copies-AreTyped zero t v a h = tt
copies-AreTyped (suc n) t v a h = (a, h, copies-AreTyped n t v a h)

count_values-copies : (n : ℕ) (v : Value) → count_values (copies n v) ≡ n
unfolding copies count_values
count_values-copies zero v = refl
count_values-copies (suc n) v = omega (arith, count_values-copies n v)

type_of-zero_of : (t : GoType) → type_of (zero_of t) ≡ t
unfolding type_of zero_of
type_of-zero_of (go_array n t) = ap (λ k. go_array k t) (count_values-copies n (zero_of t))
type_of-zero_of t = refl

zero_assignable : (t : GoType) → assignable (type_of (zero_of t)) t ≡ true
zero_assignable t = subst (λ s. assignable s t ≡ true) (sym (type_of-zero_of t)) (assignable_refl t)

mutual
  unfolding zero_of IsTyped AreTyped FieldsTyped go_fields

  zero_of-IsTyped : (t : GoType) → IsTyped (zero_of t)
  zero_of-IsTyped (go_array n t) =
      copies-AreTyped n t (zero_of t) (zero_assignable t) (zero_of-IsTyped t)
  zero_of-IsTyped (go_struct gs) = zero_fields-Typed gs
  zero_of-IsTyped t = tt

  zero_fields-Typed : (gs : GoFields) → FieldsTyped gs (zero_fields gs)
  zero_fields-Typed no_go_fields = tt
  zero_fields-Typed (go_field n t gs) = (zero_assignable t, zero_of-IsTyped t, zero_fields-Typed gs)

byte_values-AreTyped : (bs : List ℕ) → AreTyped (go_uint 8) (byte_values bs)
unfolding byte_values AreTyped IsTyped type_of
byte_values-AreTyped [] = tt
byte_values-AreTyped (b ∷ bs) = (assignable_refl (go_uint 8), tt, byte_values-AreTyped bs)

-- The loop fills every place with a value that fits it.
pub fill-AreTyped :
    (gen : Param → Run Value) (t : GoType) (room : ℕ) (ps : Params)
    → ((p : Param) → Post Unit IsTyped (gen p))
    → Post Unit (λ vs. (count_values vs ≡ room) × AreTyped t vs) (fill gen t room ps)
unfolding fill AreTyped count_values
fill-AreTyped gen t room no_params h = returns (
  count_values-copies room (zero_of t),
  copies-AreTyped room t (zero_of t) (zero_assignable t) (zero_of-IsTyped t),
)
fill-AreTyped gen t zero (param p ps) h = h p ⟫ λ v hv. panics tt
fill-AreTyped gen t (suc left) (param p ps) h = h p ⟫ λ v hv.
    elim (Bool-cases (assignable (type_of v) t)) [
      | inl e ↦
          rw (e, if◌then◌else◌)
            (fill-AreTyped gen t left ps h ⟫ λ vs hs. returns (omega (arith, hs.0), (e, hv, hs.1)))
      | inr e ↦ rw (e, if◌then◌else◌) (panics tt)
    ]

-- A size of more than 64 bits has no Go type of its own.
is_word_large : (n : ℕ) → leb n 64 ≡ false → is_word n ≡ false
is_word_large n h = ground arith

module _ (lib : Library) (d : IsDocumented lib) where
  big_int_Good :
      (n : ℕ) (p : Param)
      → is_word n ≡ false
      → Post Unit (Good lib (int_ty n)) (get_big_integer lib p >>= λ z. done (Value.big_val z))
  unfolding type_of IsTyped
  big_int_Good n p w =
      anything (get_big_integer lib p) ⟫ λ z _. returns (inl (sym (d.int_other n w)), tt)

  big_uint_Good :
      (n : ℕ) (p : Param)
      → is_word n ≡ false
      → Post Unit (Good lib (uint_ty n)) (get_big_integer lib p >>= λ z. done (Value.big_val z))
  unfolding type_of IsTyped
  big_uint_Good n p w =
      anything (get_big_integer lib p) ⟫ λ z _. returns (inl (sym (d.uint_other n w)), tt)

  pub typed_int-Good : (n : ℕ) (p : Param) → Post Unit (Good lib (int_ty n)) (typed_int lib n p)
  unfolding typed_int type_of IsTyped
  typed_int-Good n p = elim (Bool-cases (leb n 64)) [
    | inr e ↦ rw (e, if◌then◌else◌) (big_int_Good n p (is_word_large n e))
    | inl e ↦
        rw (e, if◌then◌else◌)
          (anything (get_integer lib p) ⟫ λ z _. elim (Bool-cases (is_word n)) [
            | inl w ↦ rw (w, if◌then◌else◌) (returns (inl (sym (d.int_word n w)), tt))
            | inr w ↦ rw (w, if◌then◌else◌) (big_int_Good n p w)
          ])
  ]

  pub typed_uint-Good : (n : ℕ) (p : Param) → Post Unit (Good lib (uint_ty n)) (typed_uint lib n p)
  unfolding typed_uint type_of IsTyped
  typed_uint-Good n p = elim (Bool-cases (leb n 64)) [
    | inr e ↦ rw (e, if◌then◌else◌) (big_uint_Good n p (is_word_large n e))
    | inl e ↦
        rw (e, if◌then◌else◌)
          (anything (get_unsigned_integer lib p) ⟫ λ z _. elim (Bool-cases (is_word n)) [
            | inl w ↦ rw (w, if◌then◌else◌) (returns (inl (sym (d.uint_word n w)), tt))
            | inr w ↦ rw (w, if◌then◌else◌) (big_uint_Good n p w)
          ])
  ]

  pub typed_bool-Good : (p : Param) → Post Unit (Good lib bool_ty) (typed_bool lib p)
  unfolding typed_bool type_of IsTyped
  typed_bool-Good (boolean b) = returns (inl (sym d.bools), tt)
  typed_bool-Good (text s) = returns (inl (sym d.bools), tt)
  typed_bool-Good _ = stops

  pub typed_string-Good : (p : Param) → Post Unit (Good lib string_ty) (typed_string p)
  unfolding typed_string type_of IsTyped
  typed_string-Good (text s) = returns (inl (sym d.strings), tt)
  typed_string-Good _ = stops

  pub typed_address-Good : (p : Param) → Post Unit (Good lib address_ty) (typed_address lib p)
  unfolding typed_address type_of IsTyped
  typed_address-Good (text s) = elim (Bool-cases (lib.is_hex_address s)) [
    | inl e ↦ rw (e, if◌then◌else◌) (returns (inl (sym d.addresses), tt))
    | inr e ↦ rw (e, if◌then◌else◌) stops
  ]
  typed_address-Good _ = stops

  -- A type of bytes is an array type, or []byte.
  byte_sequence-Good :
      (t : AbiType) (bs : List ℕ)
      → is_bytes t ≡ true
      → (is_array (lib.get_type t) ≡ false → lib.get_type t ≡ go_slice (go_uint 8))
      → Good lib t (byte_sequence (lib.get_type t) bs)
  unfolding byte_sequence type_of IsTyped AreTyped
  byte_sequence-Good t [] b h = (inr (b, (0, refl)), tt)
  byte_sequence-Good t (c ∷ bs) b h = elim (Bool-cases (is_array (lib.get_type t))) [
    | inl e ↦ simp (e, if◌then◌else◌) (inr (b, (_, refl)), byte_values-AreTyped (c ∷ bs))
    | inr e ↦ simp (e, if◌then◌else◌) (inl (sym (h e)), byte_values-AreTyped (c ∷ bs))
  ]

  pub typed_bytes-Good :
      (t : AbiType) (p : Param)
      → is_bytes t ≡ true
      → (is_array (lib.get_type t) ≡ false → lib.get_type t ≡ go_slice (go_uint 8))
      → Post Unit (Good lib t) (typed_bytes lib (lib.get_type t) p)
  unfolding typed_bytes
  typed_bytes-Good t (items ps) b h =
      anything (read_bytes ps) ⟫ λ bs _. returns (byte_sequence-Good t bs b h)
  typed_bytes-Good t (text s) b h = returns (byte_sequence-Good t (lib.from_hex s) b h)
  typed_bytes-Good t _ b h = stops

  pub unless_nil-Good :
      (t : AbiType) (p : Param)
      → ((p : Param) → Post Unit (Good lib t) (typed lib t p))
      → Post Unit (Good lib t) (unless_nil (typed lib t) p)
  unless_nil-Good t nil h = stops
  unless_nil-Good t p h = h p
