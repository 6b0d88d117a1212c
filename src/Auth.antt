-- ===== src/Auth.antt =====
-- Authorisation of requests, internal/maidenlaneauth/auth.go. The security module is a plugin
-- (pkg/securitymodule.go declares its interface), so it is a parameter here.
mod Tests
use zeroxyz.Prelude.{
  String, ◌≡◌, Bool, true, false, Option, none, some, List, arith, if◌then◌else◌, refl, ◌⊎◌, inl,
  inr, ◌↔◌,
}
use zeroxyz.Errors.{ErrorId, Error, errorf}

pub data Result {ℓ} (A : Type ℓ) : Type ℓ where
  ok : A → Result A
  err : Error → Result A

pub Result-cases {ℓ} :
    {A : Type ℓ} (r : Result A) → ((e : Error) × (r ≡ err e)) ⊎ ((a : A) × (r ≡ ok a))
Result-cases (err e) = inl (e, refl)
Result-cases (ok a) = inr (a, refl)

-- pkg/securitymodule.go. `A` is what a plugin hands back for a verified token; a plugin may hand
-- back nothing. The authorisation calls return an error, or none.
pub record SecurityModule (A : Type 0) : Type 0 where
  pub verify_token : String → Result (Option A)
  pub auth_rpc : A → String → List String → Option Error
  pub auth_rpc_subscribe : A → String → List String → Option Error
  pub auth_event_streams : A → Option Error
  pub auth_list_async_replies : A → Option Error
  pub auth_read_async_reply_by_uuid : A → Option Error

-- The values that this package keeps in a Go context.
pub record Context (A : Type 0) : Type 0 where
  pub system_auth : Bool
  pub access_token : Option String
  pub auth_context : Option A

module _ {A : Type 0} where
  -- context.Background()
  abbrev pub background : Context A
  background = record { system_auth = false; access_token = none; auth_context = none }

  unfoldable pub new_system_auth_context : Context A
  new_system_auth_context = record background { system_auth = true }

  unfoldable pub is_system_context : Context A → Bool
  is_system_context ctx = ctx.system_auth

  unfoldable pub get_auth_context : Context A → Option A
  get_auth_context ctx = ctx.auth_context

  unfoldable pub get_access_token : Context A → String
  get_access_token ctx = elim ctx.access_token [ none ↦ "" | some token ↦ token ]

  verified : Context A → String → Result (Option A) → Result (Context A)
  verified ctx token (err e) = err e
  verified ctx token (ok value) =
      ok (record ctx { access_token = some token; auth_context = value })

  unfoldable pub with_auth_context :
      Option (SecurityModule A) → Context A → String → Result (Context A)
  unfolding verified
  with_auth_context none ctx token = ok ctx
  with_auth_context (some sm) ctx token = verified ctx token (sm.verify_token token)

  -- The body that the five authorisation functions share, over the call that each makes.
  authorize :
      (SecurityModule A → A → Option Error) → Option (SecurityModule A) → Context A → Option Error
  unfolding is_system_context get_auth_context
  authorize call none ctx = none
  authorize call (some sm) ctx =
      if is_system_context ctx then none else elim (get_auth_context ctx) [
        | none ↦ some (errorf ErrorId.security_module_no_auth_context)
        | some value ↦ call sm value
      ]

  unfoldable pub auth_rpc :
      Option (SecurityModule A) → Context A → String → List String → Option Error
  unfolding authorize
  auth_rpc sm ctx method args = authorize (λ s v. s.auth_rpc v method args) sm ctx

  unfoldable pub auth_rpc_subscribe :
      Option (SecurityModule A) → Context A → String → List String → Option Error
  unfolding authorize
  auth_rpc_subscribe sm ctx ns args = authorize (λ s v. s.auth_rpc_subscribe v ns args) sm ctx

  unfoldable pub auth_event_streams : Option (SecurityModule A) → Context A → Option Error
  unfolding authorize
  auth_event_streams sm ctx = authorize (λ s v. s.auth_event_streams v) sm ctx

  unfoldable pub auth_list_async_replies : Option (SecurityModule A) → Context A → Option Error
  unfolding authorize
  auth_list_async_replies sm ctx = authorize (λ s v. s.auth_list_async_replies v) sm ctx

  unfoldable pub auth_read_async_reply_by_uuid :
      Option (SecurityModule A) → Context A → Option Error
  unfolding authorize
  auth_read_async_reply_by_uuid sm ctx = authorize (λ s v. s.auth_read_async_reply_by_uuid v) sm ctx

  -- With a security module, a call in a context that `with_auth_context` made from a token goes
  -- ahead exactly when the module returned a value for the token and accepts the call for it.
  pub auth_rpc-with_auth_context :
      (sm : SecurityModule A) (token method : String) (args : List String) (ctx : Context A)
      → with_auth_context (some sm) background token ≡ ok ctx
      → (auth_rpc (some sm) ctx method args ≡ none) ↔ (
          (value : A) × (sm.verify_token token ≡ ok (some value))
          × (sm.auth_rpc value method args ≡ none))
  unfolding with_auth_context auth_rpc is_system_context
  auth_rpc-with_auth_context sm token method args ctx h =
      elim (Result-cases (sm.verify_token token)) [
        | inl (e, q) ↦ absurd (cc (q, h))
        | inr (none, q) ↦ (λ k. absurd (ground arith), λ k. absurd (cc (k.1, q)))
        | inr (some v, q) ↦ (λ k. (v, q, ground arith), λ k. ground (arith, k.1, k.2))
      ]
