-- ===== src/Gate/KeyRoles.antt =====
-- What a key may do behind the guards of modules/api-keys/api-key.routes.js and
-- modules/audit/audit.routes.js, which ask for a role (middleware/role.middleware.js).
use doc_query.Base.{ℕ, ◌≡◌, true, false, none, some, List, [], first, arith}
use doc_query.Base.Table.{Table}
use doc_query.Base.Errors.{ok}
use doc_query.Text.{starts_with}
use doc_query.ApiKeys.{key_prefix_text, is_past}
use doc_query.ApiKeys.Rows.{ApiKey, has_hash}
use doc_query.ApiKeys.Validity.{validate_iff}
use doc_query.Gate.{
  fresh, attach_key, with_key, authenticate, resolve_organization, require_role, role_gate,
}
use doc_query.Gate.Rows.{Headers, Member, State, Verified}

module _ (sha256 : List ℕ → List ℕ) (verify : List ℕ → Verified) (uuid_text : ℕ → List ℕ)
    (keys : Table ApiKey) (users : Table ℕ) (members : Table Member) where
  -- A live key passes the guards of a route for owners and administrators, whatever its scopes, and
  -- whatever the role of its creator: the request comes with the role of an administrator. The key
  -- is in the X-API-Key header, and no organization is named.
  pub role_gate-any_scopes :
      (now : ℕ) (h : Headers) (s : State) (k : ApiKey) (scopes : List (List ℕ))
      → starts_with key_prefix_text h.x_api_key ≡ true
      → h.x_organization_id ≡ []
      → first (has_hash (sha256 h.x_api_key)) s.keys ≡ some (record k { scopes = scopes })
      → k.revoked_at ≡ none
      → is_past k.expires_at now ≡ false
      → (role_gate sha256 verify uuid_text keys users members now h s).0
        ≡ ok (attach_key (record k { scopes = scopes }) (fresh h))
  unfolding role_gate authenticate with_key resolve_organization require_role
  role_gate-any_scopes now h s k scopes prefix no_org found unrevoked unexpired = ground (
    arith,
    (validate_iff sha256 keys now h.x_api_key s.keys (record k { scopes = scopes })).1
        (prefix, found, unrevoked, unexpired),
  )
