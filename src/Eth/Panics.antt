-- ===== src/Eth/Panics.antt =====
-- Where generateTypedArg panics, and where it cannot.
use zeroxyz.Prelude.{
  ℕ, zero, suc, ◌≢◌, ◌<◌, Bool, true, false, ◌≡◌, refl, sym, subst, arith, inl, inr, if◌then◌else◌,
}
use zeroxyz.Eth.Types.{
  AbiType, int_ty, uint_ty, bool_ty, string_ty, address_ty, bytes_ty, fixed_bytes_ty, slice_ty,
  array_ty, tuple_ty, other_ty, Elems, no_elems, elem, Param, nil, items, members, Params,
  no_params, param, Members, GoType, Value, type_of, assignable, Run, done, panicked, Library,
}
use zeroxyz.Eth.Args.{
  typed, typed_tuple, typed_array_or_slice, unless_nil, find_member, go_fields, generate_typed_arg,
  fill, is_array, count_params,
}
use zeroxyz.Eth.Post.{returns, stops, ◌⟫◌, weaken, post_panicked, Post-both}
use zeroxyz.Eth.Fits.{IsDocumented, is_bytes, go_field_types, assignable_refl}
use zeroxyz.Eth.Leaves.{Good, unless_nil-Good}
use zeroxyz.Eth.Sound.{typed-Good}
use zeroxyz.Eth.Calm.{
  Calm, typed_int-Calm, typed_uint-Calm, typed_bool-Calm, typed_string-Calm, typed_address-Calm,
  typed_bytes-Calm, slice_Calm, field_Calm,
}

-- The types without arrays of a fixed length and without lists of bytes.
unfoldable mutual
  pub IsSafe : AbiType → Type 0
  IsSafe (slice_ty t) = (is_bytes t ≡ false) × IsSafe t
  IsSafe (array_ty n t) = ⊥
  IsSafe (tuple_ty fs) = AreSafe fs
  IsSafe _ = Unit

  pub AreSafe : Elems → Type 0
  AreSafe no_elems = Unit
  AreSafe (elem n t fs) = IsSafe t × AreSafe fs

unless_nil-Calm :
    (gen : Param → Run Value) → ((p : Param) → Calm (gen p)) → (p : Param) → Calm (unless_nil gen p)
unless_nil-Calm gen h nil = stops
unless_nil-Calm gen h p = h p

module _ (lib : Library) (d : IsDocumented lib) where
  -- A value of a type that is not bytes is assignable to the place of that type.
  fits_assignable :
      (t : AbiType) (v : Value)
      → is_bytes t ≡ false
      → Good lib t v
      → assignable (type_of v) (lib.get_type t) ≡ true
  fits_assignable t v b (inl e, g) =
      subst (λ s. assignable s (lib.get_type t) ≡ true) (sym e) (assignable_refl (lib.get_type t))
  fits_assignable t v b (inr h, g) = absurd (cc (b, h.0))

  mutual
    unfolding typed IsSafe go_fields

    typed-Calm : (t : AbiType) (p : Param) → IsSafe t → Calm (typed lib t p)
    typed-Calm (int_ty n) p s = typed_int-Calm lib n p
    typed-Calm (uint_ty n) p s = typed_uint-Calm lib n p
    typed-Calm bool_ty p s = typed_bool-Calm lib p
    typed-Calm string_ty p s = typed_string-Calm p
    typed-Calm address_ty p s = typed_address-Calm lib p
    typed-Calm bytes_ty p s = typed_bytes-Calm lib (lib.get_type bytes_ty) p
    typed-Calm (fixed_bytes_ty n) p s = typed_bytes-Calm lib (lib.get_type (fixed_bytes_ty n)) p
    typed-Calm (slice_ty t) p s =
        subst (λ g. Calm (typed_array_or_slice (unless_nil (typed lib t)) g (lib.get_type t) 0 p))
          (sym (d.slices t))
          (slice_Calm (unless_nil (typed lib t)) (lib.get_type t) (lib.get_type t) p (λ q.
            weaken (λ v g. fits_assignable t v s.0 g.0)
              (Post-both (unless_nil-Good lib d t q (typed-Good lib d t))
                (unless_nil-Calm (typed lib t) (λ r. typed-Calm t r s.1) q))))
    typed-Calm (array_ty n t) p s = absurd s
    typed-Calm (tuple_ty fs) (members m) s =
        subst (λ g. Calm (typed_tuple lib fs (go_fields g) m)) (sym (d.tuples fs))
          (tuple_Calm fs m s)
        ⟫ λ vs _. returns tt
    typed-Calm (tuple_ty fs) _ s = stops
    typed-Calm other_ty p s = stops

    tuple_Calm :
        (fs : Elems) (m : Members)
        → AreSafe fs
        → Calm (typed_tuple lib fs (go_field_types lib.get_type fs) m)
    tuple_Calm no_elems m s = returns tt
    tuple_Calm (elem n t fs) m s =
        field_Calm (unless_nil (typed lib t)) (lib.get_type t) (find_member n m)
          (unless_nil-Calm (typed lib t) (λ r. typed-Calm t r s.0))
        ⟫ λ v _. tuple_Calm fs m s.1 ⟫ λ vs _. returns tt

-- With a library that gives the documented Go types, generateTypedArg does not panic, whatever JSON
-- value it is given, for an ABI type in which there is no array of a fixed length and no list of
-- bytes.
pub generate_typed_arg-IsSafe :
    (lib : Library) (t : AbiType) (p : Param)
    → IsDocumented lib
    → IsSafe t
    → generate_typed_arg lib t p ≢ panicked
unfolding generate_typed_arg
generate_typed_arg-IsSafe lib t p d s e =
    post_panicked e (unless_nil-Calm (typed lib t) (λ q. typed-Calm lib d t q s) p)

-- Every element of a list is converted to a value of this Go type.
unfoldable pub Converts : Library → AbiType → Params → Type 0
Converts lib t no_params = Unit
Converts lib t (param p ps) =
    ((v : Value) × (generate_typed_arg lib t p ≡ done v)) × Converts lib t ps

same_branches : {A : Type 0} (b : Bool) (x : A) → (if b then x else x) ≡ x
same_branches true x = refl
same_branches false x = refl

too_many_panics :
    (lib : Library) (t : AbiType) (g : GoType) (room : ℕ) (ps : Params)
    → Converts lib t ps
    → room < count_params ps
    → fill (unless_nil (typed lib t)) g room ps ≡ panicked
unfolding fill count_params Converts generate_typed_arg
too_many_panics lib t g room no_params c h = absurd (omega arith)
too_many_panics lib t g zero (param p ps) ((v, e), c) h = simp e refl
too_many_panics lib t g (suc left) (param p ps) ((v, e), c) h =
    simp (e, too_many_panics lib t g left ps c (omega arith))
      (same_branches (assignable (type_of v) g) panicked)

-- Given more values than an array of a fixed length holds, all of them right, generateTypedArg
-- panics, with a library that gives the documented Go types.
pub generate_typed_arg-array :
    (lib : Library) (n : ℕ) (t : AbiType) (ps : Params)
    → IsDocumented lib
    → Converts lib t ps
    → n < count_params ps
    → generate_typed_arg lib (array_ty n t) (items ps) ≡ panicked
unfolding generate_typed_arg typed typed_array_or_slice is_array
generate_typed_arg-array lib n t ps d c h =
    simp (d.arrays n t, if◌then◌else◌, too_many_panics lib t (lib.get_type t) n ps c h) refl
