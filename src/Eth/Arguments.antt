-- ===== src/Eth/Arguments.antt =====
-- What generateTypedArgs takes for the inputs of a method.
use zeroxyz.Prelude.{
  ℕ, ◌+◌, ◌≤◌, List, [], ◌∷◌, ◌++◌, Option, none, some, Bool, true, false, ◌≡◌, refl, sym, ap, ◌∙◌,
  subst, arith, ◌↔◌, inl, inr, Bool-cases, if◌then◌else◌, length, ltb, String,
}
use zeroxyz.Errors.{Error, ErrorId, errorf}
use zeroxyz.Auth.{ok}
use zeroxyz.Eth.Types.{
  AbiType, Param, text, members, Members, Value, Argument, done, fails, ◌>>=◌, Library,
}
use zeroxyz.Eth.Args.{find_member, generate_typed_arg}
use zeroxyz.Eth.Post.{bind_done}
use zeroxyz.Eth.Params.{
  inline_typed, value_and_type, known_type, set_type, is_tuple_at, inline_object, with_param,
  on_object, flatten_from, flatten_params, typed_args, generate_typed_args,
}

-- One parameter for each input, converted to its type.
unfoldable pub Matches : Library → List Argument → List Param → List Value → Type 0
Matches lib [] [] [] = Unit
Matches lib (a ∷ inputs) (p ∷ ps) (v ∷ vs) =
    (generate_typed_arg lib a.type p ≡ done v) × Matches lib inputs ps vs
Matches lib _ _ _ = ⊥

-- From the i-th place on, no parameter is an object that is to be flattened.
abbrev pub NoInline : ℕ → List Argument → List Param → Type 0
NoInline i inputs [] = Unit
NoInline i inputs (p ∷ ps) = (inline_object i inputs p ≡ none) × NoInline (i + 1) inputs ps

done_inj : {A : Type 0} {a b : A} → done a ≡ done b → a ≡ b
done_inj h = cc (h)

typed_args→Matches :
    (lib : Library) (inputs : List Argument) (ps : List Param) (vs : List Value)
    → length ps ≤ length inputs
    → typed_args lib inputs ps ≡ done vs
    → Matches lib inputs ps vs
unfolding typed_args Matches
typed_args→Matches lib [] [] [] l h = tt
typed_args→Matches lib [] [] (v ∷ vs) l h = absurd (cc)
typed_args→Matches lib [] (p ∷ ps) vs l h = absurd (omega arith)
typed_args→Matches lib (a ∷ inputs) [] vs l h = absurd (cc)
typed_args→Matches lib (a ∷ inputs) (p ∷ ps) vs l h =
    let (v, e, k) = bind_done (generate_typed_arg lib a.type p) _ vs h in
    let (ws, es, q) = bind_done (typed_args lib inputs ps) _ vs k in
    subst (Matches lib (a ∷ inputs) (p ∷ ps)) (done_inj q)
      (e, typed_args→Matches lib inputs ps ws (omega arith) es)

Matches→typed_args :
    (lib : Library) (inputs : List Argument) (ps : List Param) (vs : List Value)
    → Matches lib inputs ps vs
    → (typed_args lib inputs ps ≡ done vs) × (length ps ≡ length inputs)
unfolding typed_args Matches
Matches→typed_args lib [] [] [] h = (refl, refl)
Matches→typed_args lib (a ∷ inputs) (p ∷ ps) (v ∷ vs) (e, h) =
    let (r, l) = Matches→typed_args lib inputs ps vs h in (simp (e, r) refl, omega (arith, l))
Matches→typed_args lib _ _ _ h = absurd h

on_none :
    {A : Type 0} (o : Option Members) (plain : A) (inline : Members → A)
    → o ≡ none
    → on_object o plain inline ≡ plain
on_none o plain inline e = ap (λ o. on_object o plain inline) e

on_some :
    {A : Type 0} (o : Option Members) (m : Members) (plain : A) (inline : Members → A)
    → o ≡ some m
    → on_object o plain inline ≡ inline m
on_some o m plain inline e = ap (λ o. on_object o plain inline) e

flatten_from-NoInline :
    (lib : Library) (e : Option Error) (i : ℕ) (inputs : List Argument) (ps : List Param)
    → NoInline i inputs ps
    → flatten_from lib e i inputs ps ≡ done (record { params = ps; inputs = inputs; error = e })
unfolding flatten_from
flatten_from-NoInline lib e i inputs [] h = refl
flatten_from-NoInline lib e i inputs (p ∷ ps) (h, hs) =
    on_none _ _ _ h
    ∙ ap (λ r. r >>= with_param p) (flatten_from-NoInline lib e (i + 1) inputs ps hs)

-- generateTypedArgs without objects to flatten.
plain_args :
    (lib : Library) (ps : List Param) (inputs : List Argument) (b : Bool)
    → ltb (length inputs) (length ps) ≡ b
    → NoInline 0 inputs ps
    → generate_typed_args lib ps inputs ≡ (
        if b
        then fails (errorf ErrorId.transaction_send_input_too_many_params)
        else (do vs ← typed_args lib inputs ps; done (vs, inputs)))
unfolding generate_typed_args flatten_params
plain_args lib ps inputs true e n = simp (e, flatten_from-NoInline lib _ 0 inputs ps n) refl
plain_args lib ps inputs false e n = simp (e, flatten_from-NoInline lib _ 0 inputs ps n) refl

args→Matches :
    (lib : Library) (ps : List Param) (inputs ins : List Argument) (vs : List Value)
    → NoInline 0 inputs ps
    → generate_typed_args lib ps inputs ≡ done (vs, ins)
    → (ins ≡ inputs) × Matches lib inputs ps vs
args→Matches lib ps inputs ins vs n h = elim (Bool-cases (ltb (length inputs) (length ps))) [
  | inl e ↦ let q = sym (plain_args lib ps inputs true e n) ∙ h in absurd (cc (q))
  | inr e ↦
      let (ws, r, q) =
        bind_done (typed_args lib inputs ps) _ (vs, ins)
          (sym (plain_args lib ps inputs false e n) ∙ h) in
      let k = done_inj q in
      (
        sym (ap (λ (x : List Value × List Argument). x.1) k),
        subst (Matches lib inputs ps) (ap (λ (x : List Value × List Argument). x.0) k)
            (typed_args→Matches lib inputs ps ws (ground arith) r),
      )
]

Matches→args :
    (lib : Library) (ps : List Param) (inputs ins : List Argument) (vs : List Value)
    → NoInline 0 inputs ps
    → (ins ≡ inputs) × Matches lib inputs ps vs
    → generate_typed_args lib ps inputs ≡ done (vs, ins)
Matches→args lib ps inputs ins vs n (e, m) =
    let (r, l) = Matches→typed_args lib inputs ps vs m in
    plain_args lib ps inputs false (ground arith) n ∙ simp r (ap (λ i. done (vs, i)) (sym e))

-- Where no parameter is an object that stands for a value and a type, generateTypedArgs succeeds
-- exactly when there is one parameter for each input of the method and each is converted to the type
-- of its input; the results are these values, and the inputs stay as they were.
pub generate_typed_args_iff :
    (lib : Library) (ps : List Param) (inputs ins : List Argument) (vs : List Value)
    → NoInline 0 inputs ps
    → (generate_typed_args lib ps inputs ≡ done (vs, ins))
      ↔ ((ins ≡ inputs) × Matches lib inputs ps vs)
generate_typed_args_iff lib ps inputs ins vs n =
    (args→Matches lib ps inputs ins vs n, Matches→args lib ps inputs ins vs n)

-- The type is set behind the inputs that there are.
set_type-length :
    (lib : Library) (t : AbiType) (inputs : List Argument)
    → set_type lib (length inputs) t inputs ≡ inputs ++ (record { name = ""; type = t } ∷ [])
unfolding set_type
set_type-length lib t [] = refl
set_type-length lib t (a ∷ inputs) = ap (λ i. a ∷ i) (set_type-length lib t inputs)

no_tuple : (inputs : List Argument) → is_tuple_at (length inputs) inputs ≡ false
unfolding is_tuple_at
no_tuple [] = refl
no_tuple (a ∷ inputs) = no_tuple inputs

behind-inline :
    (inputs : List Argument) (m : Members)
    → inline_object (length inputs) inputs (members m) ≡ some m
unfolding inline_object
behind-inline inputs m = simp (no_tuple inputs) refl

inline_typed-some :
    (lib : Library) (m : Members) (p : Param) (s : String) (t : AbiType)
    → find_member "value" m ≡ some p
    → find_member "type" m ≡ some (text s)
    → lib.new_type s ≡ ok t
    → inline_typed lib m ≡ done (p, t)
unfolding inline_typed value_and_type known_type
inline_typed-some lib m p s t v y n = (λ i. value_and_type lib (v i) (y i)) ∙ ap (known_type p) n

flatten_from_behind :
    (lib : Library) (e : Option Error) (i : ℕ) (inputs : List Argument) (ps : List Param)
    (m : Members) (p : Param) (t : AbiType)
    → NoInline i inputs ps
    → i + length ps ≡ length inputs
    → inline_typed lib m ≡ done (p, t)
    → flatten_from lib e i inputs (ps ++ members m ∷ [])
      ≡ done (record {
        params = ps ++ p ∷ [];
        inputs = inputs ++ (record { name = ""; type = t } ∷ []);
        error = none;
      })
unfolding flatten_from
flatten_from_behind lib e i inputs [] m p t n l h =
    let at_end : length inputs ≡ i = omega (arith, l) in
    on_some _ m _ _
      (subst (λ k. inline_object k inputs (members m) ≡ some m) at_end (behind-inline inputs m))
    ∙ simp h (
        ap (λ ins. done (record { params = p ∷ []; inputs = ins; error = none }))
          (subst (λ k. set_type lib k t inputs ≡ inputs ++ (record { name = ""; type = t } ∷ []))
            at_end (set_type-length lib t inputs)))
flatten_from_behind lib e i inputs (q ∷ ps) m p t (n, ns) l h =
    on_none _ _ _ n
    ∙ ap (λ r. r >>= with_param q)
        (flatten_from_behind lib e (i + 1) inputs ps m p t ns (omega (arith, l)) h)

typed_args_behind :
    (lib : Library) (inputs : List Argument) (ps : List Param) (vs : List Value) (a : Argument)
    (p : Param) (v : Value)
    → Matches lib inputs ps vs
    → generate_typed_arg lib a.type p ≡ done v
    → typed_args lib (inputs ++ a ∷ []) (ps ++ p ∷ []) ≡ done (vs ++ v ∷ [])
unfolding typed_args Matches
typed_args_behind lib [] [] [] a p v h g = simp g refl
typed_args_behind lib (b ∷ inputs) (q ∷ ps) (w ∷ vs) a p v (e, h) g =
    simp (e, typed_args_behind lib inputs ps vs a p v h g) refl
typed_args_behind lib _ _ _ a p v h g = absurd h

-- A parameter more than the method has inputs is accepted where it is an object that gives a value
-- and a type which NewType knows and to which the value is converted; the other parameters are those
-- that the inputs ask for, none of them such an object. The method is left with an input more.
pub generate_typed_args_behind :
    (lib : Library) (ps : List Param) (inputs : List Argument) (vs : List Value) (m : Members)
    (p : Param) (s : String) (t : AbiType) (v : Value)
    → NoInline 0 inputs ps
    → Matches lib inputs ps vs
    → find_member "value" m ≡ some p
    → find_member "type" m ≡ some (text s)
    → lib.new_type s ≡ ok t
    → generate_typed_arg lib t p ≡ done v
    → generate_typed_args lib (ps ++ members m ∷ []) inputs
      ≡ done (vs ++ v ∷ [], inputs ++ (record { name = ""; type = t } ∷ []))
unfolding generate_typed_args flatten_params
generate_typed_args_behind lib ps inputs vs m p s t v n h fv ft nt g =
    let (r, l) = Matches→typed_args lib inputs ps vs h in
    simp
      (
        flatten_from_behind lib _ 0 inputs ps m p t n (omega (arith, l))
            (inline_typed-some lib m p s t fv ft nt),
        typed_args_behind lib inputs ps vs (record { name = ""; type = t }) p v h g,
      )
      refl
