-- ===== src/Eth/RoundTrip.antt =====
-- Values that a call returned as JSON can be given as arguments again.
use zeroxyz.Prelude.{
  ℕ, ◌^◌, ◌<◌, Bool, true, false, ◌≡◌, refl, sym, ◌∙◌, ap, subst, arith, if◌then◌else◌, List, [],
  ◌∷◌, All, length, leb,
}
use zeroxyz.Prelude.Int.{pos}
use zeroxyz.Prelude.Decimal.{decimal, decimal_ℤ}
use zeroxyz.Eth.Types.{
  AbiType, int_ty, uint_ty, bool_ty, string_ty, address_ty, bytes_ty, fixed_bytes_ty, slice_ty,
  Param, boolean, text, items, Params, no_params, param, GoType, go_int, go_uint, go_slice, Value,
  int_val, uint_val, big_val, bool_val, string_val, address_val, slice_val, array_val, Values,
  no_values, value, type_of, count_values, same_type, assignable, done, Library,
}
use zeroxyz.Eth.Numbers.{is_word}
use zeroxyz.Eth.Args.{
  typed, typed_bool, typed_string, typed_address, typed_bytes, byte_sequence, byte_values, is_array,
  fill, count_params, typed_array_or_slice, unless_nil, generate_typed_arg, copies,
}
use zeroxyz.Eth.Outputs.{
  map_output, map_number, map_bool, map_string, map_bytes, map_byte_values, read_byte_values,
  map_values, map_slice,
}
use zeroxyz.Eth.Fits.{IsDocumented, assignable_refl}
use zeroxyz.Eth.Integers.{
  InSigned, typed_int-decimal_ℤ, typed_int_big, typed_uint-decimal, typed_uint_big,
}

abbrev pub IsByte : ℕ → Type 0
IsByte b = b < 256

-- What the code relies on of the library's hexadecimal texts: FromHex reads back what ToHex makes of
-- one byte or more (of none it makes "0x0"), and the text of 20 bytes is that of an address.
pub record IsHexLibrary (lib : Library) : Type 0 where
  pub from_to :
      (b : ℕ) (bs : List ℕ) → All IsByte (b ∷ bs) → lib.from_hex (lib.to_hex (b ∷ bs)) ≡ b ∷ bs
  pub is_address : (bs : List ℕ) → length bs ≡ 20 → lib.is_hex_address (lib.to_hex bs) ≡ true
  pub address :
      (bs : List ℕ) → length bs ≡ 20 → All IsByte bs → lib.hex_to_address (lib.to_hex bs) ≡ bs

abbrev pub Bytes : Values → ℕ → Type 0
Bytes vs n =
    (b : ℕ) × (bs : List ℕ) × (vs ≡ byte_values (b ∷ bs))
    × All IsByte (b ∷ bs)
    × (length (b ∷ bs) ≡ n)

-- Values of the types of numbers, booleans, texts, addresses, some bytes, and slices of these, as the
-- library makes them for an ABI type. A number that has no Go type of its own and is declared with up
-- to 64 bits is one of 64 bits.
unfoldable mutual
  pub IsValue : Library → AbiType → Value → Type 0
  IsValue lib (int_ty n) (int_val m z) = (m ≡ n) × (is_word n ≡ true) × InSigned n z
  IsValue lib (int_ty n) (big_val z) = (is_word n ≡ false) × (leb n 64 ≡ true → InSigned 64 z)
  IsValue lib (uint_ty n) (uint_val m k) = (m ≡ n) × (is_word n ≡ true) × (k < 2 ^ n)
  IsValue lib (uint_ty n) (big_val (pos k)) = (is_word n ≡ false) × (leb n 64 ≡ true → k < 2 ^ 64)
  IsValue lib bool_ty (bool_val b) = Unit
  IsValue lib string_ty (string_val s) = Unit
  IsValue lib address_ty (address_val bs) = (length bs ≡ 20) × All IsByte bs
  IsValue lib bytes_ty (slice_val t vs) = (t ≡ go_uint 8) × ((n : ℕ) × Bytes vs n)
  IsValue lib (fixed_bytes_ty n) (array_val t vs) = (t ≡ go_uint 8) × Bytes vs n
  IsValue lib (slice_ty t) (slice_val g vs) = (g ≡ lib.get_type t) × AreValues lib t vs
  IsValue lib _ _ = ⊥

  pub AreValues : Library → AbiType → Values → Type 0
  AreValues lib t no_values = Unit
  AreValues lib t (value v vs) = IsValue lib t v × AreValues lib t vs

-- It is mapped to JSON that is converted back to it.
abbrev pub Back : Library → AbiType → Value → Type 0
Back lib t v = (p : Param) × (map_output lib t v ≡ done p) × (generate_typed_arg lib t p ≡ done v)

when_true : {A : Type 0} (b : Bool) (x y : A) → b ≡ true → (if b then x else y) ≡ x
when_true true x y h = refl
when_true false x y h = absurd (cc)

module _ (lib : Library) where
  read_byte_values-byte_values : (bs : List ℕ) → read_byte_values (byte_values bs) ≡ done bs
  unfolding read_byte_values byte_values
  read_byte_values-byte_values [] = refl
  read_byte_values-byte_values (b ∷ bs) = simp (read_byte_values-byte_values bs) refl

  count_values-byte_values : (bs : List ℕ) → count_values (byte_values bs) ≡ length bs
  unfolding count_values byte_values
  count_values-byte_values [] = refl
  count_values-byte_values (b ∷ bs) = omega (arith, count_values-byte_values bs)

  module _ (d : IsDocumented lib) (x : IsHexLibrary lib) where
    -- The values have the Go type of their ABI type.
    type_of_value : (t : AbiType) (v : Value) → IsValue lib t v → type_of v ≡ lib.get_type t
    unfolding type_of IsValue
    type_of_value (int_ty n) (int_val m z) h = ap go_int h.0 ∙ sym (d.int_word n h.1)
    type_of_value (int_ty n) (big_val z) h = sym (d.int_other n h.0)
    type_of_value (uint_ty n) (uint_val m k) h = ap go_uint h.0 ∙ sym (d.uint_word n h.1)
    type_of_value (uint_ty n) (big_val (pos k)) h = sym (d.uint_other n h.0)
    type_of_value bool_ty (bool_val b) h = sym d.bools
    type_of_value string_ty (string_val s) h = sym d.strings
    type_of_value address_ty (address_val bs) h = sym d.addresses
    type_of_value bytes_ty (slice_val t vs) h = ap go_slice h.0 ∙ sym d.bytes
    type_of_value (fixed_bytes_ty n) (array_val t vs) (e, (b, bs, q, y, l)) =
        simp (e, q, count_values-byte_values (b ∷ bs), l) (sym (d.fixed_bytes n))
    type_of_value (slice_ty t) (slice_val g vs) h = ap go_slice h.0 ∙ sym (d.slices t)
    type_of_value _ _ h = absurd h

    back_bytes :
        (g : GoType) (b : ℕ) (bs : List ℕ) (v : Value)
        → byte_sequence g (b ∷ bs) ≡ v
        → All IsByte (b ∷ bs)
        → typed_bytes lib g (text (lib.to_hex (b ∷ bs))) ≡ done v
    unfolding typed_bytes
    back_bytes g b bs v e y = simp (x.from_to b bs y) (ap done e)

    -- The values of a slice, when each one is mapped to JSON that is converted back.
    slice_values :
        (t : AbiType) (vs : Values)
        → ((v : Value) → IsValue lib t v → Back lib t v)
        → AreValues lib t vs
        → (ps : Params) × (map_values (map_output lib t) vs ≡ done ps)
          × (fill (unless_nil (typed lib t)) (lib.get_type t) (count_params ps) ps ≡ done vs)
    unfolding AreValues map_values fill count_params copies generate_typed_arg
    slice_values t no_values k h = (no_params, refl, refl)
    slice_values t (value v vs) k h =
        let (p, m, g) = k v h.0 in
        let (ps, ms, gs) = slice_values t vs k h.1 in
        let a : assignable (type_of v) (lib.get_type t) ≡ true =
          subst (λ s. assignable s (lib.get_type t) ≡ true) (sym (type_of_value t v h.0))
            (assignable_refl (lib.get_type t)) in
        (param p ps, simp (m, ms) refl, simp (g, gs) (when_true _ _ _ a))

    back : (t : AbiType) (v : Value) → IsValue lib t v → Back lib t v
    unfolding IsValue map_output map_number map_bool map_string map_bytes map_byte_values map_slice
        same_type generate_typed_arg typed typed_bool typed_string typed_address
        typed_array_or_slice is_array byte_sequence
    back (int_ty n) (int_val m z) (e, w, h) = (
      text (decimal_ℤ z),
      refl,
      typed_int-decimal_ℤ lib n z w h ∙ ap (λ k. done (int_val k z)) (sym e),
    )
    back (int_ty n) (big_val z) (w, h) = (text (decimal_ℤ z), refl, typed_int_big lib n z w h)
    back (uint_ty n) (uint_val m k) (e, w, h) = (
      text (decimal k),
      refl,
      typed_uint-decimal lib n k w h ∙ ap (λ m. done (uint_val m k)) (sym e),
    )
    back (uint_ty n) (big_val (pos k)) (w, h) =
        (text (decimal_ℤ (pos k)), refl, typed_uint_big lib n k w h)
    back bool_ty (bool_val b) h = (boolean b, refl, refl)
    back string_ty (string_val s) h = (text s, refl, refl)
    back address_ty (address_val bs) (l, y) =
        (text (lib.to_hex bs), refl, simp (x.is_address bs l, if◌then◌else◌, x.address bs l y) refl)
    back bytes_ty (slice_val g vs) (e, (n, (b, bs, q, y, l))) = (
      text (lib.to_hex (b ∷ bs)),
      simp (e, q, read_byte_values-byte_values (b ∷ bs)) refl,
      back_bytes (lib.get_type bytes_ty) b bs (slice_val g vs) (simp (d.bytes, e, q) refl) y,
    )
    back (fixed_bytes_ty n) (array_val g vs) (e, (b, bs, q, y, l)) = (
      text (lib.to_hex (b ∷ bs)),
      simp (e, q, read_byte_values-byte_values (b ∷ bs)) refl,
      back_bytes (lib.get_type (fixed_bytes_ty n)) b bs (array_val g vs)
          (simp (d.fixed_bytes n, e, q) refl) y,
    )
    back (slice_ty t) (slice_val g vs) (e, h) =
        let (ps, ms, gs) = slice_values t vs (back t) h in
        (items ps, simp ms refl, simp (d.slices t, gs, e) refl)
    back _ _ h = absurd h

-- With a library that gives the documented Go types and reads back its texts of bytes, every value
-- of a type made of numbers, booleans, texts, addresses, bytes (at least one) and slices, as the
-- library makes it for the type, is mapped by mapOutput to JSON that generateTypedArg converts back
-- to the same value.
pub generate_typed_arg-map_output :
    (lib : Library) (t : AbiType) (v : Value)
    → IsDocumented lib
    → IsHexLibrary lib
    → IsValue lib t v
    → (p : Param) × (map_output lib t v ≡ done p) × (generate_typed_arg lib t p ≡ done v)
generate_typed_arg-map_output lib t v d x h = back lib d x t v h
