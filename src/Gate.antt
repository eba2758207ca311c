-- ===== src/Gate.antt =====
-- The guards in front of a handler: middleware/auth.middleware.js, then
-- middleware/organization.middleware.js, then middleware/role.middleware.js; and
-- middleware/permission.middleware.js, which no route mounts. The hash, the token
-- library and the text of a stored identifier are parameters.
pub mod Rows
pub mod Scopes
pub mod Sound
pub mod KeyRoles
mod Tests
use doc_query.Base.{
  [], ◌∷◌, ℕ, zero, suc, Bool, true, false, not, ◌&&◌, ◌||◌, ◌==◌, leb, Option, none, some, List,
  [], ◌∷◌, ◌++◌, any, length, drop, present, if◌then◌else◌,
}
use doc_query.Base.Table.{Table}
use doc_query.Base.Errors.{
  Code, AppError, Result, ok, err, Action, pure, throw, throw_if, gets, or_throw, ◌>>=◌, ◌>>◌,
}
use doc_query.Text.{codes, text_eq, starts_with, trim, lower, includes}
use doc_query.Roles.{Role, owner, admin, same_role}
use doc_query.Permissions.{has_permission}
use doc_query.ApiKeys.{key_prefix_text, is_empty, validate_api_key}
use doc_query.ApiKeys.Rows.{ApiKey}
use Rows.{Headers, Member, Request, State, Verified, payload, expired, malformed}
use Scopes.{scope_grants}

-- `verifyAccessToken` and `verifyRefreshToken` of utils/jwt.js, with the errors as
-- middleware/error.middleware.js answers them.
abbrev pub verified_subject : Verified → Result ℕ
verified_subject (payload sub true) = ok sub
verified_subject (payload sub false) = err (AppError.unauthorized Code.auth_invalid_token)
verified_subject expired = err (AppError.unauthorized Code.auth_token_expired)
verified_subject malformed = err (AppError.unauthorized Code.auth_invalid_token)

-- The tests of the UUID pattern: eight, four, four, four and twelve hexadecimal digits.
abbrev is_hex : ℕ → Bool
is_hex c = (leb 48 c && leb c 57) || (leb 97 c && leb c 102) || (leb 65 c && leb c 70)

-- The rest of the text after `n` hexadecimal digits.
skip_hex : ℕ → List ℕ → Option (List ℕ)
skip_hex zero s = some s
skip_hex (suc n) [] = none
skip_hex (suc n) (c ∷ s) = let rest = skip_hex n s in if is_hex c then rest else none

skip_dash : Option (List ℕ) → Option (List ℕ)
skip_dash none = none
skip_dash (some []) = none
skip_dash (some (c ∷ s)) = if c == 45 then some s else none

hex_group : ℕ → Option (List ℕ) → Option (List ℕ)
unfolding skip_hex
hex_group n none = none
hex_group n (some s) = skip_hex n s

abbrev at_end : Option (List ℕ) → Bool
at_end (some []) = true
at_end _ = false

unfoldable pub is_uuid : List ℕ → Bool
unfolding hex_group skip_hex skip_dash
is_uuid s = at_end (
    hex_group 12 (
      skip_dash (
        hex_group 4
          (skip_dash (hex_group 4 (skip_dash (hex_group 4 (skip_dash (hex_group 8 (some s))))))))))

-- A request with nothing attached yet.
abbrev pub fresh : Headers → Request
fresh h = record {
  headers = h;
  api_key = none;
  user = none;
  organization = none;
  membership = none;
}

-- What a valid key attaches to the request.
abbrev pub attach_key : ApiKey → Request → Request
attach_key k req = record req {
  api_key = some k;
  user = some k.created_by;
  organization = some k.organization_id;
  membership = some (record {
    user_id = k.created_by;
    organization_id = k.organization_id;
    role = admin;
    suspended = false;
  });
}

-- `requirePermission`
pub require_permission : List (List ℕ) → Request → Result Request
require_permission ps req = elim req.api_key [
  | some k ↦
      if any (scope_grants k.scopes) ps
      then ok req
      else err (AppError.forbidden Code.api_key_scope_insufficient)
  | none ↦ elim req.membership [
    | none ↦ err (AppError.forbidden Code.org_context_required)
    | some m ↦
        if any (has_permission m.role) ps
        then ok req
        else err (AppError.forbidden Code.permission_denied)
  ]
]

-- `requireRole`
pub require_role : List Role → Request → Result Request
require_role allowed req = elim req.membership [
  | none ↦ err (AppError.forbidden Code.org_context_required)
  | some m ↦
      if any (λ r. same_role r m.role) allowed
      then ok req
      else err (AppError.forbidden Code.role_insufficient)
]

-- The token after `Bearer `.
abbrev pub bearer_token : Request → List ℕ
bearer_token req = trim (drop 7 req.headers.authorization)

-- `where: { userId_organizationId: … }`, for the text of an identifier; the database compares
-- UUIDs whatever their case.
abbrev pub member_of : (ℕ → List ℕ) → ℕ → List ℕ → Member → Bool
member_of uuid_text user org_text m =
    m.user_id == user && text_eq (uuid_text m.organization_id) (lower org_text)

-- `membership.status === 'SUSPENDED'`
abbrev pub is_suspended : Option Member → Bool
is_suspended none = false
is_suspended (some m) = m.suspended

-- `req.apiKey && req.organization`
abbrev pub key_organization : Request → Option ℕ
key_organization req = if present req.api_key then req.organization else none

module _ (sha256 : List ℕ → List ℕ) (verify : List ℕ → Verified) (uuid_text : ℕ → List ℕ)
    (keys : Table ApiKey) (users : Table ℕ) (members : Table Member) where
  -- `apiKeyService.validateApiKey` on the table of keys, and what follows it.
  pub with_key : ℕ → List ℕ → Request → Action State Request
  with_key now raw req s =
      let (r, ks) = validate_api_key sha256 keys now raw s.keys in
      elim r [
        | ok k ↦ (ok (attach_key k req), record s { keys = ks })
        | err e ↦ (err e, record s { keys = ks })
      ]

  -- The last part of `authenticate`: an access token.
  unfoldable pub with_token : List ℕ → Request → Action State Request
  with_token token req = elim (verified_subject (verify token)) [
    | err e ↦ throw e
    | ok sub ↦ do
      found ← gets (λ s. users.find (λ u. u == sub) s.users)
      throw_if (not (present found)) (AppError.unauthorized Code.auth_user_not_found)
      pure (record req { user = some sub })
  ]

  pub authenticate : ℕ → Request → Action State Request
  unfolding with_key with_token
  authenticate now req =
      if starts_with key_prefix_text req.headers.x_api_key
      then with_key now req.headers.x_api_key req
      else do
        throw_if (is_empty req.headers.authorization) (AppError.unauthorized Code.auth_required)
        throw_if (not (starts_with (codes "Bearer ") req.headers.authorization))
            (AppError.unauthorized Code.auth_invalid_format)
        throw_if (is_empty (bearer_token req)) (AppError.unauthorized Code.auth_required)
        if starts_with key_prefix_text (bearer_token req)
            then with_key now (bearer_token req) req
            else with_token (bearer_token req) req

  -- The part of `resolveOrganization` for a user who came with a token.
  pub resolve_member : ℕ → Request → Action State Request
  resolve_member user req = do
    throw_if (is_empty req.headers.x_organization_id)
        (AppError.bad_request Code.org_header_required)
    throw_if (not (is_uuid req.headers.x_organization_id))
        (AppError.bad_request Code.org_invalid_id)
    found ←
        gets (λ s. members.find (member_of uuid_text user req.headers.x_organization_id) s.members)
    throw_if (is_suspended found) (AppError.forbidden Code.org_access_denied)
    m ← or_throw found (AppError.forbidden Code.org_access_denied)
    pure (record req { organization = some m.organization_id; membership = some m })

  pub resolve_key : ℕ → Request → Action State Request
  resolve_key org req = do
    throw_if
        (not (is_empty req.headers.x_organization_id)
          && not (text_eq req.headers.x_organization_id (uuid_text org)))
        (AppError.forbidden Code.org_access_denied)
    pure req

  pub resolve_organization : Request → Action State Request
  unfolding resolve_member resolve_key
  resolve_organization req = elim req.user [
    | none ↦ throw (AppError.forbidden Code.auth_required)
    | some user ↦ elim (key_organization req) [
      | some org ↦ resolve_key org req
      | none ↦ resolve_member user req
    ]
  ]

  -- `router.use(authenticate, resolveOrganization, requireRole('OWNER', 'ADMIN'))`
  pub role_gate : ℕ → Headers → Action State Request
  unfolding authenticate resolve_organization require_role
  role_gate now h = do
    req ← authenticate now (fresh h)
    req' ← resolve_organization req
    λ s. (require_role (owner ∷ admin ∷ []) req', s)
