-- ===== src/Gate/Sound.antt =====
-- What the guards have established when they let a request through
-- (middleware/auth.middleware.js, middleware/organization.middleware.js,
-- middleware/role.middleware.js), as modules/api-keys/api-key.routes.js and
-- modules/audit/audit.routes.js compose them.
use doc_query.Base.{
  ◌≤◌, Option, ap, ◌∙◌, ℕ, ◌≡◌, ◌⊎◌, ◌≢◌, true, false, ◌==◌, refl, none, some, List, [], ◌∷◌, any,
  first, arith, Option-cases, Bool-cases, inl, inr,
}
use doc_query.Base.Table.{Table}
use doc_query.Base.Errors.{AppError, ok, err, Result-cases}
use doc_query.Text.{starts_with}
use doc_query.Roles.{Role, owner, admin, member, viewer, same_role}
use doc_query.ApiKeys.{key_prefix_text, is_past, validate_api_key}
use doc_query.ApiKeys.Rows.{ApiKey, has_hash}
use doc_query.ApiKeys.Validity.{validate_iff}
use doc_query.Gate.{
  verified_subject, fresh, attach_key, require_role, with_key, bearer_token, with_token,
  authenticate, member_of, resolve_organization, role_gate,
}
use doc_query.Gate.Rows.{Headers, Member, Request, State, Verified, payload, expired, malformed}

-- What the tests of the code say of a date and of a token.
not_past : (e : Option ℕ) (now t : ℕ) → is_past e now ≡ false → e ≡ some t → now ≤ t
not_past e now t h k = ground arith

payload_of_verified :
    (v : Verified) (user : ℕ) → verified_subject v ≡ ok user → v ≡ payload user true
payload_of_verified (payload sub true) user h = ground arith
payload_of_verified (payload sub false) user h = absurd (ground arith)
payload_of_verified expired user h = absurd (ground arith)
payload_of_verified malformed user h = absurd (ground arith)

owner_or_admin :
    (r : Role) → any (λ a. same_role a r) (owner ∷ admin ∷ []) ≡ true → (r ≡ owner) ⊎ (r ≡ admin)
owner_or_admin owner h = inl refl
owner_or_admin admin h = inr refl
owner_or_admin member h = absurd (ground arith)
owner_or_admin viewer h = absurd (ground arith)

module _ (sha256 : List ℕ → List ℕ) (verify : List ℕ → Verified) (uuid_text : ℕ → List ℕ)
    (keys : Table ApiKey) (users : Table ℕ) (members : Table Member) where
  -- A key that is stored under the hash of `raw`, not revoked, and not expired at `now`.
  pub record IsLive (now : ℕ) (raw : List ℕ) (k : ApiKey) (s : State) : Type 0 where
    pub stored : first (has_hash (sha256 raw)) s.keys ≡ some k
    pub unrevoked : k.revoked_at ≡ none
    pub unexpired : (t : ℕ) → k.expires_at ≡ some t → now ≤ t

  with_key-IsLive :
      (now : ℕ) (raw : List ℕ) (req r : Request) (s : State)
      → (with_key sha256 verify uuid_text keys users members now raw req s).0 ≡ ok r
      → (k : ApiKey) × (r ≡ attach_key k req) × IsLive now raw k s
  unfolding with_key
  with_key-IsLive now raw req r s e =
      elim (Result-cases (validate_api_key sha256 keys now raw s.keys).0) [
        | inl (k, valid) ↦
            let h = (validate_iff sha256 keys now raw s.keys k).0 valid in
            (
              k,
              ground arith,
              record {
                stored = h.1;
                unrevoked = h.2;
                unexpired = λ t. not_past k.expires_at now t h.3;
              },
            )
        | inr (x, refused) ↦ absurd (ground arith)
      ]

  -- A user who is known, and whom a valid access token names.
  pub record IsKnown (h : Headers) (user : ℕ) (s : State) : Type 0 where
    pub verified : verify (bearer_token (fresh h)) ≡ payload user true
    pub known : first (λ u. u == user) s.users ≢ none

  with_token-IsKnown :
      (h : Headers) (r : Request) (s : State)
      → (with_token sha256 verify uuid_text keys users members
          (bearer_token (fresh h))
          (fresh h)
          s).0
        ≡ ok r
      → (user : ℕ) × (with_token sha256 verify uuid_text keys users members
            (bearer_token (fresh h))
            (fresh h)
            s
          ≡ (ok (record (fresh h) { user = some user }), s))
        × IsKnown h user s
  unfolding with_token
  with_token-IsKnown h r s e =
      elim (Result-cases (verified_subject (verify (bearer_token (fresh h))))) [
        | inr (x, refused) ↦ absurd (ground arith)
        | inl (user, verified) ↦ (
          user,
          ground arith,
          record {
            verified = payload_of_verified (verify (bearer_token (fresh h))) user verified;
            known = ground (arith, users.find_lem (λ u. u == user) s.users);
          },
        )
      ]

  -- The two ways through `authenticate`.
  authenticate-cases :
      (now : ℕ) (h : Headers) (r : Request) (s : State)
      → (authenticate sha256 verify uuid_text keys users members now (fresh h) s).0 ≡ ok r
      → ((raw : List ℕ) × (k : ApiKey) × (r ≡ attach_key k (fresh h)) × IsLive now raw k s)
        ⊎ ((user : ℕ) × ((authenticate sha256 verify uuid_text keys users members now (fresh h) s)
              ≡ (ok (record (fresh h) { user = some user }), s))
            × IsKnown h user s)
  unfolding authenticate
  authenticate-cases now h r s e = elim (Bool-cases (starts_with key_prefix_text h.x_api_key)) [
    | inl in_header ↦
        let (k, same, live) = with_key-IsLive now h.x_api_key (fresh h) r s (ground arith) in
        inl (h.x_api_key, k, same, live)
    | inr no_header ↦ elim (Bool-cases (starts_with key_prefix_text (bearer_token (fresh h)))) [
      | inl bearer ↦
          let (k, same, live) =
            with_key-IsLive now (bearer_token (fresh h)) (fresh h) r s (ground arith) in
          inl (bearer_token (fresh h), k, same, live)
      | inr token ↦
          let (user, done, known) = with_token-IsKnown h r s (ground arith) in
          inr (user, ground arith, known)
    ]
  ]

  -- How a request got through: with a live key that has a scope for one of the permissions; or as a
  -- known user who is an active member of the organization that the header names, with a role
  -- that has one of the permissions.
  pub data Authorized (now : ℕ) (h : Headers) (s : State) (r : Request) : Type 0 where
    by_key :
        (raw : List ℕ) (k : ApiKey)
        → r ≡ attach_key k (fresh h)
        → IsLive now raw k s
        → Authorized now h s r
    by_member :
        (user : ℕ) (m : Member)
        → r ≡ record (fresh h) {
          user = some user;
          organization = some m.organization_id;
          membership = some m;
        }
        → IsKnown h user s
        → first (member_of uuid_text user h.x_organization_id) s.members ≡ some m
        → m.suspended ≡ false
        → (m.role ≡ owner) ⊎ (m.role ≡ admin)
        → Authorized now h s r

  gate_by_key :
      (now : ℕ) (h : Headers) (s : State) (r : Request) (raw : List ℕ) (k : ApiKey)
      → (role_gate sha256 verify uuid_text keys users members now h s).0 ≡ ok r
      → (authenticate sha256 verify uuid_text keys users members now (fresh h) s).0
        ≡ ok (attach_key k (fresh h))
      → IsLive now raw k s
      → Authorized now h s r
  unfolding role_gate resolve_organization require_role
  gate_by_key now h s r raw k e done live = Authorized.by_key raw k (ground arith) live

  gate_by_member :
      (now : ℕ) (h : Headers) (s : State) (r : Request) (user : ℕ)
      → (role_gate sha256 verify uuid_text keys users members now h s).0 ≡ ok r
      → authenticate sha256 verify uuid_text keys users members now (fresh h) s
        ≡ (ok (record (fresh h) { user = some user }), s)
      → IsKnown h user s
      → Authorized now h s r
  unfolding role_gate resolve_organization require_role
  gate_by_member now h s r user e done known =
      elim (Option-cases (first (member_of uuid_text user h.x_organization_id) s.members)) [
        | inl missing ↦ absurd (
            ground
              (arith, members.find_lem (member_of uuid_text user h.x_organization_id) s.members))
        | inr (m, found) ↦
            let law = members.find_lem (member_of uuid_text user h.x_organization_id) s.members in
            Authorized.by_member user m (ground (arith, law)) known found (ground (arith, law))
              (owner_or_admin m.role (ground (arith, law)))
      ]

  gate_refused :
      (now : ℕ) (h : Headers) (s : State) (r : Request) (x : AppError)
      → (role_gate sha256 verify uuid_text keys users members now h s).0 ≡ ok r
      → (authenticate sha256 verify uuid_text keys users members now (fresh h) s).0 ≡ err x
      → ⊥
  unfolding role_gate
  gate_refused now h s r x e refused = ground arith

  -- A request that reaches a handler behind the guards of the routes for owners and administrators
  -- comes with a stored, unrevoked, unexpired key, or from a known user with a valid access token who
  -- is an active member of the organization of the header, as its owner or an administrator.
  pub role_gate-Authorized :
      (now : ℕ) (h : Headers) (s : State) (r : Request)
      → (role_gate sha256 verify uuid_text keys users members now h s).0 ≡ ok r
      → Authorized now h s r
  role_gate-Authorized now h s r e =
      elim (Result-cases
        (authenticate sha256 verify uuid_text keys users members now (fresh h) s).0) [
          | inr (x, refused) ↦ absurd (gate_refused now h s r x e refused)
          | inl (q, passed) ↦ elim (authenticate-cases now h q s passed) [
            | inl (raw, k, same, live) ↦ gate_by_key now h s r raw k e (passed ∙ ap ok same) live
            | inr (user, done, known) ↦ gate_by_member now h s r user e done known
          ]
        ]
