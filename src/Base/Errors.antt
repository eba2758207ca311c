-- ===== src/Base/Errors.antt =====
-- utils/errors.js: the application's errors, and the result of a call that may throw one.
use mathlib.Core.Path.{◌≡◌, refl}
use mathlib.Core.Logic.{◌⊎◌, inl, inr}
use mathlib.Core.Bool.{Bool, true, false}
use mathlib.Core.Option.{Option, none, some}

-- The machine-readable codes that the modelled services throw.
pub data Code : Type 0 where
  user_not_found member_already_exists member_not_found : Code
  role_owner_protected role_promotion_denied role_last_owner : Code
  auth_required auth_invalid_format auth_user_not_found auth_invalid_token : Code
  auth_token_expired auth_email_exists auth_invalid_credentials : Code
  auth_invalid_refresh_token auth_refresh_token_revoked auth_refresh_token_expired : Code
  org_access_denied org_header_required org_invalid_id org_context_required : Code
  role_insufficient permission_denied api_key_scope_insufficient : Code
  key_name_required api_key_invalid api_key_revoked api_key_expired api_key_not_found : Code
  document_access_denied permission_not_found file_required document_not_found : Code
  document_already_processing tenant_isolation_violation file_not_found : Code
  validation_error default_bad_request conversation_not_found : Code

-- The error classes; each fixes the HTTP status.
pub data AppError : Type 0 where
  bad_request unauthorized forbidden not_found conflict validation : Code → AppError

pub data Result (A : Type 0) : Type 0 where
  ok : A → Result A
  err : AppError → Result A

pub Result-cases :
    {A : Type 0} (r : Result A) → ((a : A) × (r ≡ ok a)) ⊎ ((e : AppError) × (r ≡ err e))
Result-cases (ok a) = inl (a, refl)
Result-cases (err e) = inr (e, refl)

-- A call over a state. The state comes back after a throw too, for what was written stays.
abbrev pub Action : Type 0 → Type 0 → Type 0
Action S A = S → Result A × S

module _ {S A : Type 0} where
  abbrev pub pure : A → Action S A
  pure a s = (ok a, s)

  abbrev pub throw : AppError → Action S A
  throw e s = (err e, s)

  abbrev pub gets : (S → A) → Action S A
  gets f s = (ok (f s), s)

  abbrev pub or_throw : Option A → AppError → Action S A
  or_throw none e = throw e
  or_throw (some a) e = pure a

module _ {S : Type 0} where
  abbrev pub throw_if : Bool → AppError → Action S (Unit {0})
  throw_if true e s = (err e, s)
  throw_if false e s = (ok tt, s)

  abbrev pub modify : (S → S) → Action S (Unit {0})
  modify f s = (ok tt, f s)

infixl 5 ◌>>=◌ ◌>>◌
abbrev pub ◌>>=◌ : {S A B : Type 0} → Action S A → (A → Action S B) → Action S B
◌>>=◌ m f s = let (r, s') = m s in elim r [ ok a ↦ f a s' | err e ↦ (err e, s') ]

abbrev pub ◌>>◌ : {S A B : Type 0} → Action S A → Action S B → Action S B
m >> k = m >>= λ _. k
