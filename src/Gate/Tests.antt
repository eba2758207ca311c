-- ===== src/Gate/Tests.antt =====
-- Requests at the guards: keys under a hash that turns the text round, one access token that names
-- user 3, and identifiers that end in one digit; and the theorem about the guards at such a request.
use mathlib.Core.List.{reverse}
use doc_query.Base.{
  first, ℕ, ◌≡◌, refl, true, false, none, some, List, [], ◌∷◌, ◌+◌, ◌++◌, if◌then◌else◌,
}
use doc_query.Base.Table.{Table, in_memory}
use doc_query.Base.Errors.{Code, AppError, Result, ok, err}
use doc_query.Text.{codes, text_eq, starts_with, is_space, words, lower_unit}
use doc_query.Roles.{owner, admin, viewer}
use doc_query.Permissions.{has_permission}
use doc_query.Gate.KeyRoles.{role_gate-any_scopes}
use doc_query.ApiKeys.{key_prefix_text, raw_key, validate_api_key, used_at}
use doc_query.ApiKeys.Rows.{ApiKey, has_hash}
use doc_query.Gate.{role_gate, fresh, attach_key, is_uuid, require_role, require_permission}
use doc_query.Gate.Rows.{Headers, Member, Request, State, Verified, payload, expired, malformed}
use doc_query.Gate.Scopes.{scope_grants}
use doc_query.Gate.Sound.{Authorized, role_gate-Authorized}

abbrev hash : List ℕ → List ℕ
hash = reverse

abbrev verify : List ℕ → Verified
verify t =
    if text_eq t (codes "t3")
    then payload 3 true
    else if text_eq t (codes "old")
    then expired
    else malformed

abbrev uuid : ℕ → List ℕ
uuid n = codes "00000000-0000-0000-0000-00000000000" ++ (48 + n) ∷ []

abbrev raw : List ℕ
raw = raw_key (codes "ab") (codes "cd")

abbrev key : ApiKey
key = record {
  id = 1;
  organization_id = 7;
  created_by = 4;
  name = codes "ci";
  key_prefix = codes "ab";
  hashed_secret = hash raw;
  scopes = codes "documents:*" ∷ [];
  expires_at = some 1000;
  revoked_at = none;
  last_used_at = none;
}

abbrev keys : Table ApiKey
keys = in_memory

abbrev users : Table ℕ
users = in_memory

abbrev members : Table Member
members = in_memory

abbrev row : Member
row = record { user_id = 3; organization_id = 7; role = admin; suspended = false }

abbrev away : Member
away = record { user_id = 3; organization_id = 8; role = viewer; suspended = true }

abbrev state : State
state = record { keys = key ∷ []; users = 3 ∷ 4 ∷ []; members = row ∷ away ∷ [] }

abbrev with_bearer : List ℕ → List ℕ → Headers
with_bearer token org = record {
  x_api_key = [];
  authorization = codes "Bearer " ++ token;
  x_organization_id = org;
}

abbrev read : List (List ℕ)
read = codes "DOCUMENT_READ" ∷ []

abbrev create : List (List ℕ)
create = codes "DOCUMENT_CREATE" ∷ []

abbrev passed : Request
passed = record (fresh (with_bearer (codes "t3") (uuid 7))) {
  user = some 3;
  organization = some 7;
  membership = some row;
}

guards : Unit {0}
unfolding role_gate is_uuid require_role require_permission validate_api_key has_permission
    scope_grants text_eq starts_with is_space lower_unit words
guards = tt

let_in :
    (role_gate hash verify uuid keys users members 500 (with_bearer (codes "t3") (uuid 7)) state)
    ≡ (ok passed, state)
unfolding guards
let_in = refl

let_in_by_key : (role_gate hash verify uuid keys users members 500 (with_bearer raw []) state) ≡ (
  ok (attach_key key (fresh (with_bearer raw []))),
  record state { keys = used_at 500 key ∷ [] },
)
unfolding guards
let_in_by_key = refl

abbrev refusal : ℕ → Headers → Result Request
refusal now h = (role_gate hash verify uuid keys users members now h state).0

refusals :
    (refusal 500 (with_bearer (codes "t3") (uuid 8))
      ≡ err (AppError.forbidden Code.org_access_denied))
    × (refusal 500 (with_bearer (codes "t3") (codes "7"))
        ≡ err (AppError.bad_request Code.org_invalid_id))
    × (refusal 500 (with_bearer (codes "old") (uuid 7))
        ≡ err (AppError.unauthorized Code.auth_token_expired))
    × (refusal 1001 (with_bearer raw []) ≡ err (AppError.unauthorized Code.api_key_expired))
    × (refusal 500 (with_bearer raw (uuid 8)) ≡ err (AppError.forbidden Code.org_access_denied))
unfolding guards
refusals = (refl, refl, refl, refl, refl)

low_role :
    (require_role (owner ∷ []) passed ≡ err (AppError.forbidden Code.role_insufficient))
    × (require_permission create
          (record passed { membership = some (record row { role = viewer }) })
        ≡ err (AppError.forbidden Code.permission_denied))
    × (require_permission (codes "API_KEY_READ" ∷ []) (attach_key key passed)
        ≡ err (AppError.forbidden Code.api_key_scope_insufficient))
    × (require_permission read passed ≡ ok passed)
unfolding guards
low_role = (refl, refl, refl, refl)

-- A scope that names the resource in the plural does not reach a permission whose name has two
-- underscores.
key_scopes :
    (scope_grants (codes "documents:read" ∷ []) (codes "DOCUMENT_READ") ≡ true)
    × (scope_grants (codes "api_keys:read" ∷ []) (codes "API_KEY_READ") ≡ false)
    × (scope_grants (codes "apis:key_read" ∷ []) (codes "API_KEY_READ") ≡ true)
unfolding guards
key_scopes = (refl, refl, refl)

let_in_result :
    (role_gate hash verify uuid keys users members 500 (with_bearer (codes "t3") (uuid 7)) state).0
    ≡ ok passed
unfolding guards
let_in_result = refl

role_gate-Authorized_example :
    Authorized hash verify uuid keys users members 500
      (with_bearer (codes "t3") (uuid 7))
      state
      passed
role_gate-Authorized_example =
    role_gate-Authorized hash verify uuid keys users members 500 (with_bearer (codes "t3") (uuid 7))
      state passed let_in_result

abbrev with_header : Headers
with_header = record { x_api_key = raw; authorization = []; x_organization_id = [] }

prefixed : starts_with key_prefix_text raw ≡ true
unfolding guards
prefixed = refl

stored : first (has_hash (hash raw)) (key ∷ []) ≡ some key
unfolding guards
stored = refl

role_gate-any_scopes_example :
    (role_gate hash verify uuid keys users members 500 with_header state).0
    ≡ ok (attach_key key (fresh with_header))
role_gate-any_scopes_example =
    role_gate-any_scopes hash verify uuid keys users members 500 with_header state key
      (codes "documents:*" ∷ []) prefixed refl stored refl refl
