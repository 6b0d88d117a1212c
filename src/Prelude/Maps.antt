-- ===== src/Prelude/Maps.antt =====
-- Go's maps, as association lists over keys with an equality test. The order of the entries is
-- the order in which a `range` visits them, which no theorem may depend on.
use zeroxyz.Prelude.Tests.{if◌then◌else◌, Bool-cases}
use zeroxyz.Prelude.Lists.{length, All}
use zeroxyz.Prelude.Keys.{Key, ◌==◌}
use Prim.Native.Nat.{◌≤◌, ◌+◌}
use mathlib.Core.Path.{◌≡◌, refl, subst}
use mathlib.Core.Logic.{inl, inr}
use mathlib.Core.Option.{Option, none, some}
use mathlib.Core.List.{List, [], ◌∷◌}
use native.Mathlib.Omega.{arith}

abbrev pub Map {ℓ} : Type 0 → Type ℓ → Type ℓ
Map K V = List (K × V)

module _ {ℓ} {K : Type 0} {V : Type ℓ} ⦃e : Key K⦄ where
  -- v, exists := m[k]
  unfoldable pub lookup : K → Map K V → Option V
  lookup k [] = none
  lookup k ((j, v) ∷ m) = if j == k then some v else lookup k m

  -- delete(m, k)
  unfoldable pub delete : K → Map K V → Map K V
  delete k [] = []
  delete k ((j, v) ∷ m) = let rest = delete k m in if j == k then rest else (j, v) ∷ rest

  -- m[k] = v
  unfoldable pub put : K → V → Map K V → Map K V
  put k v [] = (k, v) ∷ []
  put k v ((j, w) ∷ m) = if j == k then (k, v) ∷ m else (j, w) ∷ put k v m

  pub lookup-put :
      (k j : K) (v : V) (m : Map K V)
      → lookup j (put k v m) ≡ (if k == j then some v else lookup j m)
  unfolding lookup put
  lookup-put k j v [] = refl
  lookup-put k j v ((i, w) ∷ m) =
      ground (arith, e.equal_iff k j, e.equal_iff i k, e.equal_iff i j, lookup-put k j v m)

  pub lookup-delete :
      (k j : K) (m : Map K V) → lookup j (delete k m) ≡ (if k == j then none else lookup j m)
  unfolding lookup delete
  lookup-delete k j [] = ground arith
  lookup-delete k j ((i, w) ∷ m) =
      ground (arith, e.equal_iff k j, e.equal_iff i k, e.equal_iff i j, lookup-delete k j m)

  pub length-put-le : (k : K) (v : V) (m : Map K V) → length (put k v m) ≤ length m + 1
  unfolding put
  length-put-le k v [] = omega arith
  length-put-le k v ((j, w) ∷ m) = ground (arith, length-put-le k v m)

  pub length-delete-le : (k : K) (m : Map K V) → length (delete k m) ≤ length m
  unfolding delete
  length-delete-le k [] = omega arith
  length-delete-le k ((j, w) ∷ m) = ground (arith, length-delete-le k m)

  pub length-put_of_some :
      (k : K) (v w : V) (m : Map K V) → lookup k m ≡ some w → length (put k v m) ≡ length m
  unfolding put lookup
  length-put_of_some k v w [] h = absurd (cc)
  length-put_of_some k v w ((j, u) ∷ m) h = ground (arith, length-put_of_some k v w m)

  module _ {κ} (P : K × V → Type κ) where
    pub put-All : (k : K) (v : V) (m : Map K V) → P (k, v) → All P m → All P (put k v m)
    unfolding put
    put-All k v [] p ps = (p, tt)
    put-All k v ((j, w) ∷ m) p ps = elim (Bool-cases (j == k)) [
      | inl e' ↦ rw (e', if◌then◌else◌) (p, ps.1)
      | inr e' ↦ rw (e', if◌then◌else◌) (ps.0, put-All k v m p ps.1)
    ]

    pub delete-All : (k : K) (m : Map K V) → All P m → All P (delete k m)
    unfolding delete
    delete-All k [] ps = tt
    delete-All k ((j, w) ∷ m) ps = elim (Bool-cases (j == k)) [
      | inl e' ↦ rw (e', if◌then◌else◌) (delete-All k m ps.1)
      | inr e' ↦ rw (e', if◌then◌else◌) (ps.0, delete-All k m ps.1)
    ]

    pub lookup-All : (k : K) (v : V) (m : Map K V) → All P m → lookup k m ≡ some v → P (k, v)
    unfolding lookup
    lookup-All k v [] ps h = absurd (cc)
    lookup-All k v ((j, w) ∷ m) ps h = elim (Bool-cases (j == k)) [
      | inl e' ↦
          let same : j ≡ k = (e.equal_iff j k).0 e' in
          let value : w ≡ v = ground arith in
          subst (λ (x : K × V). P x) (λ i. (same i, value i)) ps.0
      | inr e' ↦ lookup-All k v m ps.1 (ground arith)
    ]
