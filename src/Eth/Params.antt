-- ===== src/Eth/Params.antt =====
-- flattenParams and generateTypedArgs of txn.go. `inputs` are those of the method, which the inline
-- types of the parameters change.
use zeroxyz.Prelude.{
  ℕ, zero, suc, ◌+◌, List, [], ◌∷◌, Option, none, some, Bool, true, false, not, ◌&&◌, ltb,
  if◌then◌else◌, length,
}
use zeroxyz.Errors.{ErrorId, Error, errorf}
use zeroxyz.Auth.{Result, ok, err}
use zeroxyz.Eth.Types.{
  AbiType, tuple_ty, Param, nil, text, members, Members, Value, Argument, Run, done, fails,
  panicked, ◌>>=◌, refuse, Library,
}
use zeroxyz.Eth.Args.{find_member, generate_typed_arg}

-- What an object stands for in place of a parameter; a type of null panics.
unfoldable pub known_type : Param → Result AbiType → Run (Param × AbiType)
known_type p (err e) = refuse ErrorId.transaction_send_input_in_line_type_unknown
known_type p (ok t) = done (p, t)

unfoldable pub value_and_type : Library → Option Param → Option Param → Run (Param × AbiType)
unfolding known_type
value_and_type lib none type = refuse ErrorId.transaction_send_input_structure_wrong
value_and_type lib (some p) none = refuse ErrorId.transaction_send_input_structure_wrong
value_and_type lib (some p) (some nil) = panicked
value_and_type lib (some p) (some (text s)) = known_type p (lib.new_type s)
value_and_type lib (some p) (some _) =
    refuse ErrorId.transaction_send_input_in_line_type_array_not_string

unfoldable pub inline_typed : Library → Members → Run (Param × AbiType)
unfolding value_and_type find_member
inline_typed lib m = value_and_type lib (find_member "value" m) (find_member "type" m)

-- (*inputs)[i].Type = t, after arguments without a type up to the place i.
unfoldable pub set_type : Library → ℕ → AbiType → List Argument → List Argument
set_type lib zero t [] = record { name = ""; type = t } ∷ []
set_type lib zero t (a ∷ inputs) = record a { type = t } ∷ inputs
set_type lib (suc i) t [] = record { name = ""; type = lib.zero_type } ∷ set_type lib i t []
set_type lib (suc i) t (a ∷ inputs) = a ∷ set_type lib i t inputs

-- len(*inputs) > i && (*inputs)[i].Type.T == abi.TupleTy
unfoldable pub is_tuple_at : ℕ → List Argument → Bool
is_tuple_at i [] = false
is_tuple_at zero (a ∷ inputs) = elim a.type [ tuple_ty fs ↦ true | _ ↦ false ]
is_tuple_at (suc i) (a ∷ inputs) = is_tuple_at i inputs

-- The object of a parameter that has to be flattened.
unfoldable pub inline_object : ℕ → List Argument → Param → Option Members
unfolding is_tuple_at
inline_object i inputs (members m) = if is_tuple_at i inputs then none else some m
inline_object i inputs _ = none

pub record Flattened : Type 0 where
  pub params : List Param
  pub inputs : List Argument
  pub error : Option Error

abbrev pub with_param : Param → Flattened → Run Flattened
with_param p f = done (record f { params = p ∷ f.params })

abbrev pub on_object : {A : Type 0} → Option Members → A → (Members → A) → A
on_object none plain inline = plain
on_object (some m) plain inline = inline m

-- The loop over the parameters from the i-th, with the error so far: NewType overwrites it.
unfoldable pub flatten_from :
    Library → Option Error → ℕ → List Argument → List Param → Run Flattened
unfolding inline_typed set_type
flatten_from lib e i inputs [] = done (record { params = []; inputs = inputs; error = e })
flatten_from lib e i inputs (p ∷ ps) =
    on_object (inline_object i inputs p) (flatten_from lib e (i + 1) inputs ps >>= with_param p)
      (λ m. do
        r ← inline_typed lib m
        f ← flatten_from lib none (i + 1) (set_type lib i r.1 inputs) ps
        with_param r.0 f)

unfoldable pub flatten_params :
    Library → List Param → List Argument → (lazy_typing : Bool) → Run Flattened
unfolding flatten_from
flatten_params lib ps inputs lazy_typing =
    let too_many = not lazy_typing && ltb (length inputs) (length ps) in
    flatten_from lib
      (if too_many then some (errorf ErrorId.transaction_send_input_too_many_params) else none) 0
      inputs ps

-- The loop of generateTypedArgs.
unfoldable pub typed_args : Library → List Argument → List Param → Run (List Value)
typed_args lib [] ps = done []
typed_args lib (a ∷ inputs) [] = refuse ErrorId.transaction_send_input_count_mismatch
typed_args lib (a ∷ inputs) (p ∷ ps) = do
  v ← generate_typed_arg lib a.type p
  vs ← typed_args lib inputs ps
  done (v ∷ vs)

-- generateTypedArgs: the values, and the inputs that the method is left with.
unfoldable pub generate_typed_args :
    Library → List Param → List Argument → Run (List Value × List Argument)
unfolding flatten_params typed_args
generate_typed_args lib ps inputs = do
  f ← flatten_params lib ps inputs false
  elim f.error [
    | some e ↦ fails e
    | none ↦ do vs ← typed_args lib f.inputs f.params; done (vs, f.inputs)
  ]
