-- ===== src/Eth/Fits.antt =====
-- The Go types that go-ethereum documents for ABI types, and values that have them.
use zeroxyz.Prelude.{ℕ, Bool, true, false, ◌≡◌, refl, arith, ◌⊎◌, string_key, eq_iff}
use zeroxyz.Eth.Types.{
  AbiType, int_ty, uint_ty, bool_ty, string_ty, address_ty, bytes_ty, fixed_bytes_ty, slice_ty,
  array_ty, tuple_ty, Elems, no_elems, elem, GoType, go_int, go_uint, go_big, go_bool, go_string,
  go_address, go_slice, go_array, go_struct, GoFields, no_go_fields, go_field, Value, slice_val,
  array_val, struct_val, Values, no_values, value, type_of, same_type, same_fields, assignable,
  Library,
}
use zeroxyz.Eth.Numbers.{is_word}
use zeroxyz.Eth.Args.{go_fields}

abbrev pub go_field_types : (AbiType → GoType) → Elems → GoFields
go_field_types type no_elems = no_go_fields
go_field_types type (elem n t fs) = go_field n (type t) (go_field_types type fs)

pub record IsDocumented (lib : Library) : Type 0 where
  pub int_word : (n : ℕ) → is_word n ≡ true → lib.get_type (int_ty n) ≡ go_int n
  pub int_other : (n : ℕ) → is_word n ≡ false → lib.get_type (int_ty n) ≡ go_big
  pub uint_word : (n : ℕ) → is_word n ≡ true → lib.get_type (uint_ty n) ≡ go_uint n
  pub uint_other : (n : ℕ) → is_word n ≡ false → lib.get_type (uint_ty n) ≡ go_big
  pub bools : lib.get_type bool_ty ≡ go_bool
  pub strings : lib.get_type string_ty ≡ go_string
  pub addresses : lib.get_type address_ty ≡ go_address
  pub bytes : lib.get_type bytes_ty ≡ go_slice (go_uint 8)
  pub fixed_bytes : (n : ℕ) → lib.get_type (fixed_bytes_ty n) ≡ go_array n (go_uint 8)
  pub slices : (t : AbiType) → lib.get_type (slice_ty t) ≡ go_slice (lib.get_type t)
  pub arrays : (n : ℕ) (t : AbiType) → lib.get_type (array_ty n t) ≡ go_array n (lib.get_type t)
  pub tuples :
      (fs : Elems) → lib.get_type (tuple_ty fs) ≡ go_struct (go_field_types lib.get_type fs)

abbrev pub is_bytes : AbiType → Bool
is_bytes bytes_ty = true
is_bytes (fixed_bytes_ty n) = true
is_bytes _ = false

-- Bytes may also be an array of their own number.
abbrev pub Fits : Library → AbiType → Value → Type 0
Fits lib t v =
    (type_of v ≡ lib.get_type t)
    ⊎ ((is_bytes t ≡ true) × ((k : ℕ) × (type_of v ≡ go_array k (go_uint 8))))

-- Every place inside a value holds a value that is assignable to it.
unfoldable mutual
  pub IsTyped : Value → Type 0
  IsTyped (slice_val t vs) = AreTyped t vs
  IsTyped (array_val t vs) = AreTyped t vs
  IsTyped (struct_val t vs) = FieldsTyped (go_fields t) vs
  IsTyped _ = Unit

  pub AreTyped : GoType → Values → Type 0
  AreTyped t no_values = Unit
  AreTyped t (value v vs) = (assignable (type_of v) t ≡ true) × IsTyped v × AreTyped t vs

  pub FieldsTyped : GoFields → Values → Type 0
  FieldsTyped gs no_values = Unit
  FieldsTyped no_go_fields (value v vs) = ⊥
  FieldsTyped (go_field n g gs) (value v vs) =
      (assignable (type_of v) g ≡ true) × IsTyped v × FieldsTyped gs vs

mutual
  unfolding same_type

  same_type_refl : (t : GoType) → same_type t t ≡ true
  same_type_refl (go_array n t) = ground (arith, same_type_refl t)
  same_type_refl (go_slice t) = same_type_refl t
  same_type_refl (go_struct fs) = same_fields_refl fs
  same_type_refl t = ground arith

  same_fields_refl : (fs : GoFields) → same_fields fs fs ≡ true
  same_fields_refl no_go_fields = refl
  same_fields_refl (go_field n t fs) =
      ground (arith, same_type_refl t, same_fields_refl fs, eq_iff n n)

pub assignable_refl : (t : GoType) → assignable t t ≡ true
unfolding assignable
assignable_refl (go_array n (go_uint k)) = same_type_refl (go_array n (go_uint k))
assignable_refl (go_array n t) = same_type_refl (go_array n t)
assignable_refl t = same_type_refl t
