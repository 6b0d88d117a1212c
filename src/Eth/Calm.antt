-- ===== src/Eth/Calm.antt =====
-- The parts of generateTypedArg that do not panic.
use zeroxyz.Prelude.{ℕ, true, ◌≡◌, inl, inr, Bool-cases, if◌then◌else◌, Option, none, some, leb}
use zeroxyz.Prelude.ParseInt.{parse_int, parse_uint, parse_big}
use zeroxyz.Eth.Types.{
  Param, items, Params, no_params, param, GoType, go_slice, Value, type_of, assignable, Run,
  Library, boolean, float, text,
}
use zeroxyz.Eth.Numbers.{
  get_integer, get_unsigned_integer, get_big_integer, number_or_refuse, is_word,
}
use zeroxyz.Eth.Args.{
  typed_int, typed_uint, typed_bool, typed_string, typed_address, typed_bytes, typed_array_or_slice,
  typed_field, fill, is_array, count_params, read_bytes, outside_byte,
}
use zeroxyz.Eth.Post.{Post, returns, stops, ◌⟫◌}

abbrev pub Calm : {A : Type 0} → Run A → Type 0
Calm r = Post ⊥ (λ _. Unit) r

number_Calm : {A : Type 0} (o : Option A) → Calm (number_or_refuse o)
number_Calm none = stops
number_Calm (some n) = returns tt

get_integer-Calm : (lib : Library) (p : Param) → Calm (get_integer lib p)
unfolding get_integer
get_integer-Calm lib (text s) = number_Calm (parse_int 64 s)
get_integer-Calm lib (float f) = returns tt
get_integer-Calm lib _ = stops

get_unsigned_integer-Calm : (lib : Library) (p : Param) → Calm (get_unsigned_integer lib p)
unfolding get_unsigned_integer
get_unsigned_integer-Calm lib (text s) = number_Calm (parse_uint 64 s)
get_unsigned_integer-Calm lib (float f) = returns tt
get_unsigned_integer-Calm lib _ = stops

get_big_integer-Calm : (lib : Library) (p : Param) → Calm (get_big_integer lib p)
unfolding get_big_integer
get_big_integer-Calm lib (text s) = number_Calm (parse_big s)
get_big_integer-Calm lib (float f) = returns tt
get_big_integer-Calm lib _ = stops

pub typed_int-Calm : (lib : Library) (n : ℕ) (p : Param) → Calm (typed_int lib n p)
unfolding typed_int
typed_int-Calm lib n p =
    let big = get_big_integer-Calm lib p ⟫ λ z _. returns tt in
    elim (Bool-cases (leb n 64)) [
      | inr e ↦ rw (e, if◌then◌else◌) big
      | inl e ↦
          rw (e, if◌then◌else◌)
            (get_integer-Calm lib p ⟫ λ z _. elim (Bool-cases (is_word n)) [
              | inl w ↦ rw (w, if◌then◌else◌) (returns tt)
              | inr w ↦ rw (w, if◌then◌else◌) big
            ])
    ]

pub typed_uint-Calm : (lib : Library) (n : ℕ) (p : Param) → Calm (typed_uint lib n p)
unfolding typed_uint
typed_uint-Calm lib n p =
    let big = get_big_integer-Calm lib p ⟫ λ z _. returns tt in
    elim (Bool-cases (leb n 64)) [
      | inr e ↦ rw (e, if◌then◌else◌) big
      | inl e ↦
          rw (e, if◌then◌else◌)
            (get_unsigned_integer-Calm lib p ⟫ λ z _. elim (Bool-cases (is_word n)) [
              | inl w ↦ rw (w, if◌then◌else◌) (returns tt)
              | inr w ↦ rw (w, if◌then◌else◌) big
            ])
    ]

pub typed_bool-Calm : (lib : Library) (p : Param) → Calm (typed_bool lib p)
unfolding typed_bool
typed_bool-Calm lib (boolean b) = returns tt
typed_bool-Calm lib (text s) = returns tt
typed_bool-Calm lib _ = stops

pub typed_string-Calm : (p : Param) → Calm (typed_string p)
unfolding typed_string
typed_string-Calm (text s) = returns tt
typed_string-Calm _ = stops

pub typed_address-Calm : (lib : Library) (p : Param) → Calm (typed_address lib p)
unfolding typed_address
typed_address-Calm lib (text s) = elim (Bool-cases (lib.is_hex_address s)) [
  | inl e ↦ rw (e, if◌then◌else◌) (returns tt)
  | inr e ↦ rw (e, if◌then◌else◌) stops
]
typed_address-Calm lib _ = stops

read_bytes-Calm : (ps : Params) → Calm (read_bytes ps)
unfolding read_bytes
read_bytes-Calm no_params = returns tt
read_bytes-Calm (param (float f) ps) = elim (Bool-cases (outside_byte f)) [
  | inl e ↦ rw (e, if◌then◌else◌) stops
  | inr e ↦ rw (e, if◌then◌else◌) (read_bytes-Calm ps ⟫ λ bs _. returns tt)
]
read_bytes-Calm (param _ ps) = stops

pub typed_bytes-Calm : (lib : Library) (t : GoType) (p : Param) → Calm (typed_bytes lib t p)
unfolding typed_bytes
typed_bytes-Calm lib t (items ps) = read_bytes-Calm ps ⟫ λ bs _. returns tt
typed_bytes-Calm lib t (text s) = returns tt
typed_bytes-Calm lib t _ = stops

-- A slice has a place for each of the values.
fill-Calm :
    (gen : Param → Run Value) (t : GoType) (ps : Params)
    → ((p : Param) → Post ⊥ (λ v. assignable (type_of v) t ≡ true) (gen p))
    → Calm (fill gen t (count_params ps) ps)
unfolding fill count_params
fill-Calm gen t no_params h = returns tt
fill-Calm gen t (param p ps) h =
    h p ⟫ λ v e. rw (e, if◌then◌else◌) (fill-Calm gen t ps h ⟫ λ vs _. returns tt)

pub slice_Calm :
    (gen : Param → Run Value) (t inner : GoType) (p : Param)
    → ((p : Param) → Post ⊥ (λ v. assignable (type_of v) t ≡ true) (gen p))
    → Calm (typed_array_or_slice gen (go_slice t) inner 0 p)
unfolding typed_array_or_slice is_array
slice_Calm gen t inner (items ps) h = fill-Calm gen t ps h ⟫ λ vs _. returns tt
slice_Calm gen t inner _ h = stops

pub field_Calm :
    (gen : Param → Run Value) (g : GoType) (o : Option Param)
    → ((p : Param) → Calm (gen p))
    → Calm (typed_field gen g o)
unfolding typed_field
field_Calm gen g none h = stops
field_Calm gen g (some p) h = h p ⟫ λ v _. elim (Bool-cases (assignable (type_of v) g)) [
  | inl e ↦ rw (e, if◌then◌else◌) (returns tt)
  | inr e ↦ rw (e, if◌then◌else◌) stops
]
