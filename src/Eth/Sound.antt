-- ===== src/Eth/Sound.antt =====
-- generateTypedArg gives values of the type that is asked for, all the way in.
use zeroxyz.Prelude.{
  ℕ, true, false, ◌≡◌, refl, sym, ◌∙◌, ap, subst, inl, inr, Bool-cases, if◌then◌else◌, Option, none,
  some,
}
use zeroxyz.Eth.Types.{
  AbiType, int_ty, uint_ty, bool_ty, string_ty, address_ty, bytes_ty, fixed_bytes_ty, slice_ty,
  array_ty, tuple_ty, other_ty, Elems, no_elems, elem, Param, items, members, Members, GoType,
  go_slice, go_array, GoFields, no_go_fields, go_field, Value, Values, type_of, assignable, Run,
  done, panicked, ◌>>=◌, Library,
}
use zeroxyz.Eth.Args.{
  typed, typed_tuple, typed_array_or_slice, unless_nil, typed_field, find_member, go_fields,
  generate_typed_arg, is_array, count_params,
}
use zeroxyz.Eth.Post.{Post, returns, stops, panics, ◌⟫◌, weaken, post_done}
use zeroxyz.Eth.Fits.{IsDocumented, Fits, IsTyped, FieldsTyped}
use zeroxyz.Eth.Leaves.{
  Good, anything, fill-AreTyped, typed_int-Good, typed_uint-Good, typed_bool-Good,
  typed_string-Good, typed_address-Good, typed_bytes-Good, unless_nil-Good,
}

module _ (lib : Library) (d : IsDocumented lib) where
  -- GetType of an array or a slice decides which of the two the loop fills.
  array_Good :
      (n : ℕ) (t : AbiType) (p : Param)
      → ((p : Param) → Post Unit (Good lib t) (typed lib t p))
      → Post Unit (Good lib (array_ty n t)) (
          typed_array_or_slice
            (unless_nil (typed lib t))
            (go_array n (lib.get_type t))
            (lib.get_type t)
            n
            p)
  unfolding typed_array_or_slice is_array type_of IsTyped
  array_Good n t (items ps) h =
      fill-AreTyped (unless_nil (typed lib t)) (lib.get_type t) n ps
        (λ p. weaken (λ v g. g.1) (unless_nil-Good lib d t p h))
      ⟫ λ vs hs.
          returns (inl (ap (λ k. go_array k (lib.get_type t)) hs.0 ∙ sym (d.arrays n t)), hs.1)
  array_Good n t _ h = stops

  slice_Good :
      (t : AbiType) (p : Param)
      → ((p : Param) → Post Unit (Good lib t) (typed lib t p))
      → Post Unit (Good lib (slice_ty t)) (
          typed_array_or_slice
            (unless_nil (typed lib t))
            (go_slice (lib.get_type t))
            (lib.get_type t)
            0
            p)
  unfolding typed_array_or_slice is_array type_of IsTyped
  slice_Good t (items ps) h =
      fill-AreTyped (unless_nil (typed lib t)) (lib.get_type t) (count_params ps) ps
        (λ p. weaken (λ v g. g.1) (unless_nil-Good lib d t p h))
      ⟫ λ vs hs. returns (inl (sym (d.slices t)), hs.1)
  slice_Good t _ h = stops

  -- A field is only set to a value that is assignable to it.
  field_Typed :
      (gen : Param → Run Value) (g : GoType) (o : Option Param)
      → ((p : Param) → Post Unit IsTyped (gen p))
      → Post Unit (λ v. (assignable (type_of v) g ≡ true) × IsTyped v) (typed_field gen g o)
  unfolding typed_field
  field_Typed gen g none h = stops
  field_Typed gen g (some p) h = h p ⟫ λ v hv. elim (Bool-cases (assignable (type_of v) g)) [
    | inl e ↦ rw (e, if◌then◌else◌) (returns (e, hv))
    | inr e ↦ rw (e, if◌then◌else◌) stops
  ]

  fixed_not_slice : (n : ℕ) → is_array (lib.get_type (fixed_bytes_ty n)) ≡ false → ⊥
  unfolding is_array
  fixed_not_slice n h = absurd (cc (ap is_array (d.fixed_bytes n), h))

  -- A struct type without a place for the field panics.
  no_field_Typed :
      (gen : Param → Run Value) (P : Values → Type 0) (o : Option Param)
      → Post Unit P (elim o [ none ↦ panicked | some p ↦ do v ← gen p; panicked ])
  no_field_Typed gen P none = panics tt
  no_field_Typed gen P (some p) = anything (gen p) ⟫ λ v _. panics tt

  mutual
    unfolding typed type_of IsTyped

    pub typed-Good : (t : AbiType) (p : Param) → Post Unit (Good lib t) (typed lib t p)
    typed-Good (int_ty n) p = typed_int-Good lib d n p
    typed-Good (uint_ty n) p = typed_uint-Good lib d n p
    typed-Good bool_ty p = typed_bool-Good lib d p
    typed-Good string_ty p = typed_string-Good lib d p
    typed-Good address_ty p = typed_address-Good lib d p
    typed-Good bytes_ty p = typed_bytes-Good lib d bytes_ty p refl (λ _. d.bytes)
    typed-Good (fixed_bytes_ty n) p =
        typed_bytes-Good lib d (fixed_bytes_ty n) p refl (λ h. absurd (fixed_not_slice n h))
    typed-Good (slice_ty t) p =
        subst
          (λ g.
            Post Unit (Good lib (slice_ty t))
              (typed_array_or_slice (unless_nil (typed lib t)) g (lib.get_type t) 0 p))
          (sym (d.slices t)) (slice_Good t p (typed-Good t))
    typed-Good (array_ty n t) p =
        subst
          (λ g.
            Post Unit (Good lib (array_ty n t))
              (typed_array_or_slice (unless_nil (typed lib t)) g (lib.get_type t) n p))
          (sym (d.arrays n t)) (array_Good n t p (typed-Good t))
    typed-Good (tuple_ty fs) (members m) =
        tuple_Typed fs (go_fields (lib.get_type (tuple_ty fs))) m ⟫ λ vs hs. returns (inl refl, hs)
    typed-Good (tuple_ty fs) _ = stops
    typed-Good other_ty p = stops

    tuple_Typed :
        (fs : Elems) (gs : GoFields) (m : Members)
        → Post Unit (FieldsTyped gs) (typed_tuple lib fs gs m)
    tuple_Typed no_elems gs m = returns tt
    tuple_Typed (elem n t fs) no_go_fields m =
        no_field_Typed (unless_nil (typed lib t)) (FieldsTyped no_go_fields) (find_member n m)
    tuple_Typed (elem n t fs) (go_field name g gs) m =
        field_Typed (unless_nil (typed lib t)) g (find_member n m)
          (λ p. weaken (λ v h. h.1) (unless_nil-Good lib d t p (typed-Good t)))
        ⟫ λ v hv. tuple_Typed fs gs m ⟫ λ vs hs. returns (hv.0, hv.1, hs)

-- With a library that gives the documented Go types, a value that generateTypedArg makes for an ABI
-- type has the Go type of that ABI type, or is an array of bytes made for a type of bytes; and all
-- elements and fields inside it are assignable to the places that hold them.
pub generate_typed_arg-IsTyped :
    (lib : Library) (t : AbiType) (p : Param) (v : Value)
    → IsDocumented lib
    → generate_typed_arg lib t p ≡ done v
    → Fits lib t v × IsTyped v
unfolding generate_typed_arg
generate_typed_arg-IsTyped lib t p v d e =
    post_done e (unless_nil-Good lib d t p (typed-Good lib d t))
