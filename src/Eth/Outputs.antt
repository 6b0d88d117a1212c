-- ===== src/Eth/Outputs.antt =====
-- What a call returns, as JSON: mapOutput, genTupleMapOutput, processOutputs and ProcessRLPBytes of
-- txn.go.
use Prim.Native.String.{◌++◌ as append}
use zeroxyz.Prelude.{
  ℕ, ◌+◌, String, List, [], ◌∷◌, Option, none, some, not, eqb, ◌==◌, string_key, if◌then◌else◌,
  length,
}
use zeroxyz.Prelude.Decimal.{decimal, decimal_ℤ}
use zeroxyz.Prelude.Maps.{Map, put}
use zeroxyz.Errors.{ErrorId, Error, errorf}
use zeroxyz.Eth.Types.{
  AbiType, int_ty, uint_ty, bool_ty, string_ty, address_ty, bytes_ty, fixed_bytes_ty, slice_ty,
  array_ty, tuple_ty, other_ty, Elems, no_elems, elem, Param, nil, boolean, text, items, members,
  Params, no_params, param, Members, no_members, member, GoType, go_uint, GoFields, no_go_fields,
  go_field, Value, int_val, uint_val, big_val, bool_val, string_val, address_val, slice_val,
  array_val, struct_val, nil_big, Values, no_values, value, type_of, same_type, Argument, Run, done,
  fails, panicked, ◌>>=◌, refuse, Library,
}
use zeroxyz.Eth.Args.{go_fields}

unfoldable pub map_number : Value → Run Param
unfolding decimal_ℤ decimal
map_number (int_val n z) = done (text (decimal_ℤ z))
map_number (uint_val n k) = done (text (decimal k))
map_number (big_val z) = done (text (decimal_ℤ z))
map_number nil_big = done (text "<nil>")
map_number _ = refuse ErrorId.unpack_outputs_mismatch_type

unfoldable pub map_bool : Value → Run Param
map_bool (bool_val b) = done (boolean b)
map_bool _ = refuse ErrorId.unpack_outputs_mismatch_type

unfoldable pub map_string : Value → Run Param
map_string (string_val s) = done (text s)
map_string _ = refuse ErrorId.unpack_outputs_mismatch_type

-- The bytes of an array or slice of them.
unfoldable pub read_byte_values : Values → Run (List ℕ)
read_byte_values no_values = done []
read_byte_values (value (uint_val n b) vs) = do bs ← read_byte_values vs; done (b ∷ bs)
read_byte_values (value _ vs) = panicked

unfoldable pub map_byte_values : Library → GoType → Values → Run Param
unfolding read_byte_values same_type
map_byte_values lib t vs =
    if same_type t (go_uint 8)
    then (do bs ← read_byte_values vs; done (text (lib.to_hex bs)))
    else refuse ErrorId.unpack_outputs_mismatch_type

unfoldable pub map_bytes : Library → Value → Run Param
unfolding map_byte_values
map_bytes lib (address_val bs) = done (text (lib.to_hex bs))
map_bytes lib (slice_val t vs) = map_byte_values lib t vs
map_bytes lib (array_val t vs) = map_byte_values lib t vs
map_bytes lib _ = refuse ErrorId.unpack_outputs_mismatch_type

unfoldable pub map_values : (Value → Run Param) → Values → Run Params
map_values map no_values = done no_params
map_values map (value v vs) = do p ← map v; ps ← map_values map vs; done (param p ps)

-- A slice is mapped, and nothing else: not an array of a fixed length either.
unfoldable pub map_slice : (Value → Run Param) → Value → Run Param
unfolding map_values
map_slice map (slice_val t vs) = do ps ← map_values map vs; done (items ps)
map_slice map _ = refuse ErrorId.unpack_outputs_mismatch_type

unfoldable pub count_elems : Elems → ℕ
count_elems no_elems = 0
count_elems (elem n t fs) = count_elems fs + 1

unfoldable pub count_fields : GoFields → ℕ
count_fields no_go_fields = 0
count_fields (go_field n t gs) = count_fields gs + 1

-- m[key] = p
unfoldable pub set_member : String → Param → Members → Members
set_member key p no_members = member key p no_members
set_member key p (member k q m) =
    let rest = set_member key p m in if k == key then member key p m else member k q rest

-- The switch of mapOutput, and the loop of genTupleMapOutput, which fills the map so far.
unfoldable mutual
  unfolding map_number map_bool map_string map_bytes map_slice count_elems count_fields set_member
      go_fields same_type type_of

  pub map_output : Library → AbiType → Value → Run Param
  map_output lib (int_ty n) v = map_number v
  map_output lib (uint_ty n) v = map_number v
  map_output lib bool_ty v = map_bool v
  map_output lib string_ty v = map_string v
  map_output lib bytes_ty v = map_bytes lib v
  map_output lib (fixed_bytes_ty n) v = map_bytes lib v
  map_output lib address_ty v = map_bytes lib v
  map_output lib (slice_ty t) v = map_slice (map_output lib t) v
  map_output lib (array_ty n t) v = map_slice (map_output lib t) v
  map_output lib (tuple_ty fs) v = elim v [
    | struct_val t vs ↦
        if not (same_type t (lib.get_type (tuple_ty fs)))
        then refuse ErrorId.unpack_outputs_mismatch_tuple_type
        else if not (eqb (count_elems fs) (count_fields (go_fields t)))
        then refuse ErrorId.unpack_outputs_mismatch_tuple_field_count
        else (do m ← map_fields lib fs vs no_members; done (members m))
    | _ ↦ refuse ErrorId.unpack_outputs_mismatch_tuple_type
  ]
  map_output lib other_ty v = refuse ErrorId.unpack_outputs_unknown_type

  pub map_fields : Library → Elems → Values → Members → Run Members
  map_fields lib no_elems vs m = done m
  map_fields lib (elem n t fs) no_values m = panicked
  map_fields lib (elem n t fs) (value v vs) m = do
    p ← map_output lib t v
    map_fields lib fs vs (set_member n p m)

-- What ProcessRLPBytes puts in its result: a mapped output, or what tells of a failure.
pub data Output : Type 0 where
  mapped : Param → Output
  rlp_hex : List ℕ → Output
  raw_values : Option (List Value) → Output
  error_text : Error → Output

abbrev pub output_name : ℕ → String → String
output_name i name =
    if name == "" then (if eqb i 0 then "output" else append "output" (decimal i)) else name

-- The map that a run leaves, with the error or the panic that ended it.
pub record Filled : Type 0 where
  pub retval : Map String Output
  pub ending : Run (Unit {0})

-- genOutput: the place is set to null where the output cannot be mapped.
unfoldable pub gen_output : Library → ℕ → Argument → Value → Map String Output → Filled
unfolding map_output
gen_output lib i a v retval = elim (map_output lib a.type v) [
  | done p ↦ record { retval = put (output_name i a.name) (mapped p) retval; ending = done tt }
  | fails e ↦ record { retval = put (output_name i a.name) (mapped nil) retval; ending = fails e }
  | panicked ↦ record { retval = retval; ending = panicked }
]

unfoldable pub gen_outputs : Library → ℕ → List Argument → List Value → Map String Output → Filled
unfolding gen_output
gen_outputs lib i [] vs retval = record { retval = retval; ending = done tt }
gen_outputs lib i (a ∷ args) [] retval = record { retval = retval; ending = panicked }
gen_outputs lib i (a ∷ args) (v ∷ vs) retval =
    let first = gen_output lib i a v retval in
    let rest = gen_outputs lib (i + 1) args vs first.retval in
    elim first.ending [ done u ↦ rest | _ ↦ first ]

-- processOutputs; `none` is a nil slice of values.
unfoldable pub process_outputs :
    Library → List Argument → Option (List Value) → Map String Output → Filled
unfolding gen_outputs
process_outputs lib [] none retval = record { retval = retval; ending = done tt }
process_outputs lib [] (some vs) retval = record {
  retval = retval;
  ending = refuse ErrorId.unpack_outputs_mismatch_nil;
}
process_outputs lib (a ∷ args) raw retval =
    let vs : List Value = elim raw [ none ↦ [] | some vs ↦ vs ] in
    if eqb (length vs) (length (a ∷ args))
    then gen_outputs lib 0 (a ∷ args) vs retval
    else record { retval = retval; ending = refuse ErrorId.unpack_outputs_mismatch_count }

-- addErrorToRetval
unfoldable pub add_error_to_retval :
    List ℕ → Option (List Value) → Error → Map String Output → Map String Output
add_error_to_retval bytes raw e retval =
    put "error" (error_text e) (put "raw" (raw_values raw) (put "rlp" (rlp_hex bytes) retval))

-- ProcessRLPBytes, given what UnpackValues made of the bytes.
unfoldable pub process_rlp_bytes :
    Library → List Argument → List ℕ → Option (List Value) × Option Error → Run (Map String Output)
unfolding process_outputs add_error_to_retval
process_rlp_bytes lib args bytes (raw, some e) =
    done (add_error_to_retval bytes raw (errorf ErrorId.unpack_outputs_failed) [])
process_rlp_bytes lib args bytes (raw, none) =
    let filled = process_outputs lib args raw [] in
    elim filled.ending [
      | done u ↦ done filled.retval
      | fails e ↦ done (add_error_to_retval bytes raw e filled.retval)
      | panicked ↦ panicked
    ]
