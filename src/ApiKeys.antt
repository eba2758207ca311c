-- ===== src/ApiKeys.antt =====
-- modules/api-keys/api-key.service.js: keys that belong to an organization, kept as the hash of
-- their text. The hash (SHA-256, of the platform) and the random texts are parameters; times are
-- milliseconds.
pub mod Rows
pub mod Validity
pub mod Tenants
mod Tests
use doc_query.Base.{
  ℕ, Bool, true, false, not, ◌&&◌, ◌==◌, ◌+◌, ◌*◌, ltb, Option, none, some, List, [], ◌∷◌, ◌++◌,
  present, or_else, map, if◌then◌else◌,
}
use doc_query.Base.Table.{Table}
use doc_query.Base.Errors.{
  Code, AppError, Action, pure, throw_if, gets, or_throw, modify, ◌>>=◌, ◌>>◌,
}
use doc_query.Text.{codes, text_eq, starts_with, trim}
use Rows.{ApiKey, has_hash, by_id, in_org}

-- `KEY_PREFIX`
abbrev pub key_prefix_text : List ℕ
key_prefix_text = codes "dq_live_"

-- `dq_live_<prefix>_<secret>`
abbrev pub raw_key : List ℕ → List ℕ → List ℕ
raw_key prefix secret = key_prefix_text ++ (prefix ++ (codes "_" ++ secret))

abbrev pub ms_per_day : ℕ
ms_per_day = 24 * 60 * 60 * 1000

-- `if (expiresInDays && expiresInDays > 0)`
abbrev pub expiry : Option ℕ → ℕ → Option ℕ → Option ℕ
expiry none now before = before
expiry (some days) now before = if days == 0 then before else some (now + days * ms_per_day)

-- `apiKey.expiresAt && new Date() > apiKey.expiresAt`
abbrev pub is_past : Option ℕ → ℕ → Bool
is_past none now = false
is_past (some t) now = ltb t now

abbrev pub is_empty : List ℕ → Bool
is_empty [] = true
is_empty (c ∷ s) = false

abbrev pub used_at : ℕ → ApiKey → ApiKey
used_at now k = record k { last_used_at = some now }

abbrev pub revoked_now : ℕ → ApiKey → ApiKey
revoked_now now k = record k { revoked_at = some now }

-- `data` of the update in `rotateApiKey`.
abbrev pub rotated : List ℕ → List ℕ → Option ℕ → ApiKey → ApiKey
rotated prefix hashed expires k = record k {
  key_prefix = prefix;
  hashed_secret = hashed;
  revoked_at = none;
  expires_at = expires;
}

module _ (sha256 : List ℕ → List ℕ) (keys : Table ApiKey) where
  -- `createApiKey`, with the key's text. `scopes` is none where it is left out or no array.
  pub create_api_key :
      ℕ
      → ℕ
      → List ℕ
      → List ℕ
      → ℕ
      → ℕ
      → List ℕ
      → Option (List (List ℕ))
      → Option ℕ
      → Action (List ApiKey) (ApiKey × List ℕ)
  create_api_key new_id now prefix secret org user name scopes days = do
    throw_if (is_empty name) (AppError.bad_request Code.key_name_required)
    let row : ApiKey = record {
      id = new_id;
      organization_id = org;
      created_by = user;
      name = trim name;
      key_prefix = prefix;
      hashed_secret = sha256 (raw_key prefix secret);
      scopes = or_else scopes (codes "*" ∷ []);
      expires_at = expiry days now none;
      revoked_at = none;
      last_used_at = none;
    }
    modify (keys.create row)
    pure (row, raw_key prefix secret)

  -- `validateApiKey`; an absent key is the empty text. The update of `lastUsedAt`, which is not
  -- awaited, is taken at once.
  unfoldable pub validate_api_key : ℕ → List ℕ → Action (List ApiKey) ApiKey
  validate_api_key now raw = do
    throw_if (not (starts_with key_prefix_text raw)) (AppError.unauthorized Code.api_key_invalid)
    found ← gets (keys.find (has_hash (sha256 raw)))
    key ← or_throw found (AppError.unauthorized Code.api_key_invalid)
    throw_if (present key.revoked_at) (AppError.unauthorized Code.api_key_revoked)
    throw_if (is_past key.expires_at now) (AppError.unauthorized Code.api_key_expired)
    modify (keys.update (by_id key.id) (used_at now))
    pure key

  pub revoke_api_key : ℕ → ℕ → ℕ → Action (List ApiKey) ApiKey
  revoke_api_key now org id = do
    found ← gets (keys.find (in_org id org))
    key ← or_throw found (AppError.not_found Code.api_key_not_found)
    modify (keys.update (by_id id) (revoked_now now))
    pure (revoked_now now key)

  pub rotate_api_key :
      ℕ → List ℕ → List ℕ → ℕ → ℕ → Option ℕ → Action (List ApiKey) (ApiKey × List ℕ)
  rotate_api_key now prefix secret org id days = do
    found ← gets (keys.find (in_org id org))
    key ← or_throw found (AppError.not_found Code.api_key_not_found)
    let change = λ (k : ApiKey).
        rotated prefix (sha256 (raw_key prefix secret)) (expiry days now key.expires_at) k
    modify (keys.update (by_id id) change)
    pure (change key, raw_key prefix secret)

-- What `listApiKeys` shows of a key: no hash. The creator's name and address are left out.
pub record KeyView : Type 0 where
  pub key_id : ℕ
  pub name : List ℕ
  pub key_prefix : List ℕ
  pub scopes : List (List ℕ)
  pub expires_at : Option ℕ
  pub last_used_at : Option ℕ
  pub revoked_at : Option ℕ
  pub creator_id : ℕ

abbrev key_view : ApiKey → KeyView
key_view k = record {
  key_id = k.id;
  name = k.name;
  key_prefix = k.key_prefix;
  scopes = k.scopes;
  expires_at = k.expires_at;
  last_used_at = k.last_used_at;
  revoked_at = k.revoked_at;
  creator_id = k.created_by;
}

-- `listApiKeys`
pub list_api_keys : Table ApiKey → (List ApiKey → List ApiKey) → ℕ → List ApiKey → List KeyView
list_api_keys keys newest_first org rows =
    map key_view (newest_first (keys.find_many (λ k. k.organization_id == org) rows))
