-- ===== src/Eth/Post.antt =====
-- What holds of the value that a run ends with, and `Q` where it panics.
use zeroxyz.Prelude.{◌≡◌, refl, subst}
use zeroxyz.Errors.{Error}
use zeroxyz.Eth.Types.{Run, done, fails, panicked, ◌>>=◌}

pub data Post {A : Type 0} (Q : Type 0) (P : A → Type 0) : Run A → Type 0 where
  returns : {a : A} → P a → Post Q P (done a)
  stops : {e : Error} → Post Q P (fails e)
  panics : Q → Post Q P panicked

module _ {A : Type 0} {P : A → Type 0} {Q : Type 0} where
  infixl 1 ◌⟫◌
  pub ◌⟫◌ :
      {B : Type 0} {R : B → Type 0} {r : Run A} {f : A → Run B}
      → Post Q P r
      → ((a : A) → P a → Post Q R (f a))
      → Post Q R (r >>= f)
  returns {a} h ⟫ k = k a h
  stops ⟫ k = stops
  panics q ⟫ k = panics q

  pub weaken : {R : A → Type 0} {r : Run A} → ((a : A) → P a → R a) → Post Q P r → Post Q R r
  weaken g (returns h) = returns (g _ h)
  weaken g stops = stops
  weaken g (panics q) = panics q

  pub of_done : {a : A} → Post Q P (done a) → P a
  of_done (returns h) = h

  pub of_panicked : Post Q P panicked → Q
  of_panicked (panics q) = q

  pub post_done : {r : Run A} {a : A} → r ≡ done a → Post Q P r → P a
  post_done e h = of_done (subst (λ r. Post Q P r) e h)

  pub post_panicked : {r : Run A} → r ≡ panicked → Post Q P r → Q
  post_panicked e h = of_panicked (subst (λ r. Post Q P r) e h)

  -- What holds of every value, and what holds where there is no panic.
  pub Post-both :
      {R : A → Type 0} {r : Run A} → Post Unit R r → Post Q P r → Post Q (λ a. R a × P a) r
  Post-both (returns h) k = returns (h, of_done k)
  Post-both stops k = stops
  Post-both (panics u) k = panics (of_panicked k)

-- A run of two parts that ends with a value went through both.
pub bind_done :
    {A B : Type 0} (r : Run A) (f : A → Run B) (b : B)
    → (r >>= f) ≡ done b
    → (a : A) × (r ≡ done a) × (f a ≡ done b)
bind_done (done a) f b h = (a, refl, h)
bind_done (fails e) f b h = absurd (cc)
bind_done panicked f b h = absurd (cc)
