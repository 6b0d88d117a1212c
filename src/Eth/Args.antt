-- ===== src/Eth/Args.antt =====
-- generateTypedArg of txn.go: a JSON value to a Go value of the type that an ABI asks for.
use Prim.Native.String.{String}
use zeroxyz.Prelude.{
  ℕ, zero, suc, ◌%◌, ◌^◌, List, [], ◌∷◌, Option, none, some, Bool, true, false, ◌&&◌, ◌||◌, ltb,
  leb, eqb, ◌==◌, string_key, if◌then◌else◌,
}
use zeroxyz.Prelude.Int.{pos}
use zeroxyz.Errors.{ErrorId}
use zeroxyz.Eth.Types.{
  AbiType, int_ty, uint_ty, bool_ty, string_ty, address_ty, bytes_ty, fixed_bytes_ty, slice_ty,
  array_ty, tuple_ty, other_ty, Elems, no_elems, elem, Float64, Param, nil, boolean, float, text,
  items, members, Params, no_params, param, Members, no_members, member, GoType, go_int, go_uint,
  go_big, go_bool, go_string, go_address, go_slice, go_array, go_struct, GoFields, no_go_fields,
  go_field, Value, int_val, uint_val, big_val, bool_val, string_val, address_val, slice_val,
  array_val, struct_val, nil_big, Values, no_values, value, type_of, assignable, Run, done,
  panicked, ◌>>=◌, refuse, Library,
}
use zeroxyz.Eth.Numbers.{get_integer, get_unsigned_integer, get_big_integer, is_word, to_signed}

-- Integers: a size of up to 64 bits is read as a 64-bit integer first, and only the four sizes that
-- Go has are kept in it; all else is a big.Int.
unfoldable pub typed_int : Library → ℕ → Param → Run Value
unfolding get_integer get_big_integer to_signed
typed_int lib n p =
    let big = (do z ← get_big_integer lib p; done (big_val z)) in
    if leb n 64
    then (do z ← get_integer lib p; if is_word n then done (int_val n (to_signed n z)) else big)
    else big

unfoldable pub typed_uint : Library → ℕ → Param → Run Value
unfolding get_unsigned_integer get_big_integer
typed_uint lib n p =
    let big = (do z ← get_big_integer lib p; done (big_val z)) in
    if leb n 64
    then (do
      k ← get_unsigned_integer lib p
      if is_word n then done (uint_val n (k % 2 ^ n)) else big)
    else big

unfoldable pub typed_bool : Library → Param → Run Value
typed_bool lib (text s) = done (bool_val (lib.to_lower s == "true"))
typed_bool lib (boolean b) = done (bool_val b)
typed_bool lib _ = refuse ErrorId.transaction_send_input_type_bad_json_type_for_boolean

unfoldable pub typed_string : Param → Run Value
typed_string (text s) = done (string_val s)
typed_string _ = refuse ErrorId.transaction_send_input_type_bad_json_type_for_string

unfoldable pub typed_address : Library → Param → Run Value
typed_address lib (text s) =
    if lib.is_hex_address s
    then done (address_val (lib.hex_to_address s))
    else refuse ErrorId.transaction_send_input_type_address
typed_address lib _ = refuse ErrorId.transaction_send_input_type_bad_json_type_for_address

-- floatVal > 255 || floatVal < 0
unfoldable pub outside_byte : Float64 → Bool
outside_byte f =
    if f.negative
    then ltb 0 f.whole || f.fraction
    else ltb 255 f.whole || (eqb f.whole 255 && f.fraction)

-- The bytes of a JSON array of numbers.
unfoldable pub read_bytes : Params → Run (List ℕ)
unfolding outside_byte
read_bytes no_params = done []
read_bytes (param (float f) ps) =
    let rest = read_bytes ps in
    if outside_byte f
    then refuse ErrorId.transaction_send_input_type_bad_byte_outside_range
    else do bs ← rest; done (f.whole ∷ bs)
read_bytes (param _ ps) = refuse ErrorId.transaction_send_input_type_bad_json_type_in_numeric_array

unfoldable pub byte_values : List ℕ → Values
byte_values [] = no_values
byte_values (b ∷ bs) = value (uint_val 8 b) (byte_values bs)

-- Kind() == reflect.Array
unfoldable pub is_array : GoType → Bool
is_array (go_array n t) = true
is_array go_address = true
is_array _ = false

-- No bytes are an array of none, whatever the type.
unfoldable pub byte_sequence : GoType → List ℕ → Value
unfolding byte_values is_array
byte_sequence t [] = array_val (go_uint 8) no_values
byte_sequence t (b ∷ bs) =
    if is_array t
    then array_val (go_uint 8) (byte_values (b ∷ bs))
    else slice_val (go_uint 8) (byte_values (b ∷ bs))

unfoldable pub typed_bytes : Library → GoType → Param → Run Value
unfolding read_bytes byte_sequence
typed_bytes lib t (items ps) = do bs ← read_bytes ps; done (byte_sequence t bs)
typed_bytes lib t (text s) = done (byte_sequence t (lib.from_hex s))
typed_bytes lib t _ = refuse ErrorId.transaction_send_input_type_bad_json_type_for_bytes

unfoldable pub copies : ℕ → Value → Values
copies zero v = no_values
copies (suc n) v = value v (copies n v)

-- The zero value of a Go type: a place that nothing was assigned to.
unfoldable mutual
  unfolding copies

  pub zero_of : GoType → Value
  zero_of (go_int n) = int_val n (pos 0)
  zero_of (go_uint n) = uint_val n 0
  zero_of go_big = nil_big
  zero_of go_bool = bool_val false
  zero_of go_string = string_val ""
  zero_of go_address =
      address_val
        (0 ∷ 0 ∷ 0 ∷ 0 ∷ 0 ∷ 0 ∷ 0 ∷ 0 ∷ 0 ∷ 0 ∷ 0 ∷ 0 ∷ 0 ∷ 0 ∷ 0 ∷ 0 ∷ 0 ∷ 0 ∷ 0 ∷ 0 ∷ [])
  zero_of (go_slice t) = slice_val t no_values
  zero_of (go_array n t) = array_val t (copies n (zero_of t))
  zero_of (go_struct gs) = struct_val (go_struct gs) (zero_fields gs)

  pub zero_fields : GoFields → Values
  zero_fields no_go_fields = no_values
  zero_fields (go_field n t gs) = value (zero_of t) (zero_fields gs)

unfoldable pub count_params : Params → ℕ
count_params no_params = zero
count_params (param p ps) = suc (count_params ps)

-- The loop of generateTypedArrayOrSlice, over an array or a slice with `room` places left: Index
-- panics when there is none, and Set when the value is not assignable.
unfoldable pub fill : (Param → Run Value) → GoType → ℕ → Params → Run Values
unfolding zero_of assignable type_of
fill gen t room no_params = done (copies room (zero_of t))
fill gen t room (param p ps) = do
  v ← gen p
  elim room [
    | zero ↦ panicked
    | suc left ↦
        let rest = fill gen t left ps in
        if assignable (type_of v) t then (do vs ← rest; done (value v vs)) else panicked
  ]

-- generateTypedArrayOrSlice. `inner` is the type of the elements in an array, and `size` its length.
unfoldable pub typed_array_or_slice :
    (Param → Run Value) → (whole inner : GoType) (size : ℕ) → Param → Run Value
unfolding fill count_params is_array
typed_array_or_slice gen whole inner size (items ps) =
    if is_array whole
    then (do vs ← fill gen inner size ps; done (array_val inner vs))
    else elim whole [
      | go_slice t ↦ do vs ← fill gen t (count_params ps) ps; done (slice_val t vs)
      | _ ↦ panicked
    ]
typed_array_or_slice gen whole inner size _ =
    refuse ErrorId.transaction_send_input_type_bad_json_type_for_array

unfoldable pub find_member : String → Members → Option Param
find_member key no_members = none
find_member key (member k p m) = let rest = find_member key m in if k == key then some p else rest

-- One field of generateTupleFromMap, into a field of this type.
unfoldable pub typed_field : (Param → Run Value) → GoType → Option Param → Run Value
unfolding assignable type_of
typed_field gen t none = refuse ErrorId.transaction_send_input_not_assignable
typed_field gen t (some p) = do
  v ← gen p
  if assignable (type_of v) t then done v else refuse ErrorId.transaction_send_input_not_assignable

-- The fields of a struct type; another type has none, and Field panics.
unfoldable pub go_fields : GoType → GoFields
go_fields (go_struct fs) = fs
go_fields _ = no_go_fields

-- generateTypedArg begins with the test for null.
abbrev pub unless_nil : (Param → Run Value) → Param → Run Value
unless_nil gen nil = refuse ErrorId.transaction_send_input_type_bad_null
unless_nil gen p = gen p

-- The switch of generateTypedArg, and the loop of generateTupleFromMap.
unfoldable mutual
  unfolding typed_int typed_uint typed_bool typed_string typed_address typed_bytes
      typed_array_or_slice find_member typed_field go_fields

  pub typed : Library → AbiType → Param → Run Value
  typed lib (int_ty n) p = typed_int lib n p
  typed lib (uint_ty n) p = typed_uint lib n p
  typed lib bool_ty p = typed_bool lib p
  typed lib string_ty p = typed_string p
  typed lib address_ty p = typed_address lib p
  typed lib bytes_ty p = typed_bytes lib (lib.get_type bytes_ty) p
  typed lib (fixed_bytes_ty n) p = typed_bytes lib (lib.get_type (fixed_bytes_ty n)) p
  typed lib (slice_ty t) p =
      typed_array_or_slice (unless_nil (typed lib t)) (lib.get_type (slice_ty t)) (lib.get_type t) 0
        p
  typed lib (array_ty n t) p =
      typed_array_or_slice (unless_nil (typed lib t)) (lib.get_type (array_ty n t)) (lib.get_type t)
        n p
  typed lib (tuple_ty fs) p = elim p [
    | members m ↦
        let struct = lib.get_type (tuple_ty fs) in
        do vs ← typed_tuple lib fs (go_fields struct) m; done (struct_val struct vs)
    | _ ↦ refuse ErrorId.transaction_send_input_type_bad_json_type_for_tuple
  ]
  typed lib other_ty p = refuse ErrorId.transaction_send_input_type_not_supported

  pub typed_tuple : Library → Elems → GoFields → Members → Run Values
  typed_tuple lib no_elems gs m = done no_values
  typed_tuple lib (elem n t fs) no_go_fields m = elim (find_member n m) [
    | none ↦ panicked
    | some p ↦ do v ← unless_nil (typed lib t) p; panicked
  ]
  typed_tuple lib (elem n t fs) (go_field name g gs) m = do
    v ← typed_field (unless_nil (typed lib t)) g (find_member n m)
    vs ← typed_tuple lib fs gs m
    done (value v vs)

unfoldable pub generate_typed_arg : Library → AbiType → Param → Run Value
unfolding typed
generate_typed_arg lib t p = unless_nil (typed lib t) p
