-- ===== src/Auth.antt =====
-- modules/auth/auth.service.js: register, login, refresh and logout, with the tokens of utils/jwt.js
-- and utils/password.js. Times, random identifiers and salts are arguments.
pub mod Rows
pub mod Revoked
pub mod Sessions
pub mod Profile
mod Tests
use doc_query.Base.{
  ℕ, suc, Bool, true, false, not, ◌&&◌, ◌||◌, ◌==◌, ◌+◌, ◌-◌, ◌*◌, leb, ltb, Option, none, some,
  List, [], ◌∷◌, ◌++◌, present, if◌then◌else◌,
}
use doc_query.Base.Table.{Table}
use doc_query.Base.Errors.{Code, AppError}
use doc_query.Base.Attempt.{Attempt, got, threw, Failure, failure}
use doc_query.Text.{codes}
use doc_query.Roles.{Role, owner}
use Rows.{
  User, RefreshToken, Organization, Membership, State, by_email, by_user_id, by_token_id, Kind,
  access, refresh_kind, Claims, Verdict, valid, expired, malformed, Jwt, Passwords,
}

-- `multipliers`
abbrev unit_ms : ℕ → Option ℕ
unit_ms c =
    if c == 115
    then some 1000
    else if c == 109
    then some 60000
    else if c == 104
    then some 3600000
    else if c == 100
    then some 86400000
    else none

abbrev is_digit : ℕ → Bool
is_digit c = leb 48 c && leb c 57

-- The digits, after those that were read as a number, and the unit at the end.
read_duration : ℕ → List ℕ → Option ℕ
read_duration n [] = none
read_duration n (c ∷ []) = elim (unit_ms c) [ none ↦ none | some u ↦ some (n * u) ]
read_duration n (c ∷ d ∷ s) =
    let rest = read_duration (n * 10 + (c - 48)) (d ∷ s) in if is_digit c then rest else none

-- `parseDurationToMs`: at least one digit, and a unit.
pub parse_duration_to_ms : List ℕ → Option ℕ
unfolding read_duration
parse_duration_to_ms [] = none
parse_duration_to_ms (c ∷ s) = if is_digit c then read_duration 0 (c ∷ s) else none

-- `toSafeUser`, without the times.
pub record SafeUser : Type 0 where
  pub id : ℕ
  pub email : List ℕ
  pub name : List ℕ

abbrev pub to_safe_user : User → SafeUser
to_safe_user u = record { id = u.id; email = u.email; name = u.name }

pub record Session : Type 0 where
  pub user : SafeUser
  pub access_token : List ℕ
  pub refresh_token : List ℕ

-- JWT_ACCESS_EXPIRES_IN and JWT_REFRESH_EXPIRES_IN.
pub record Settings : Type 0 where
  pub access_expires_in : List ℕ
  pub refresh_expires_in : List ℕ

-- What a call takes from the clock and from chance.
pub record Chance : Type 0 where
  pub now : ℕ
  pub user_id : ℕ
  pub organization_id : ℕ
  pub token_id : ℕ
  pub salt : ℕ

abbrev pub refused : AppError → Failure
refused e = failure (some e) []

abbrev pub bad_duration : Failure
bad_duration = failure none (codes "Invalid duration format")

module _ (jwt : Jwt) (passwords : Passwords) (st : Settings) (users : Table User)
    (tokens : Table RefreshToken) (organizations : Table Organization)
    (members : Table Membership) where
  abbrev pub generate_access_token : ℕ → ℕ → List ℕ
  generate_access_token user now =
      jwt.sign access (record { sub = user; type_ = access; jti = 0 }) now st.access_expires_in

  abbrev pub generate_refresh_token : ℕ → ℕ → ℕ → List ℕ
  generate_refresh_token user token_id now =
      jwt.sign refresh_kind (record { sub = user; type_ = refresh_kind; jti = token_id }) now
        st.refresh_expires_in

  -- `verifyRefreshToken`, where any error is one.
  abbrev pub right_type : Claims → Option Claims
  right_type c = elim c.type_ [ access ↦ none | refresh_kind ↦ some c ]

  abbrev pub checked : Verdict → Option Claims
  checked (valid c) = right_type c
  checked expired = none
  checked malformed = none

  abbrev pub verify_refresh_token : ℕ → List ℕ → Option Claims
  verify_refresh_token now token = checked (jwt.verify refresh_kind now token)

  -- `createPersistedRefreshToken`
  abbrev pub token_row : ℕ → Chance → ℕ → RefreshToken
  token_row user ch duration = record {
    id = ch.token_id;
    token = generate_refresh_token user ch.token_id ch.now;
    user_id = user;
    expires_at = ch.now + duration;
    revoked = false;
  }

  -- The session of a user, with the tokens.
  pub open_session : User → Chance → State → Attempt Session × State
  unfolding parse_duration_to_ms
  open_session u ch s = elim (parse_duration_to_ms st.refresh_expires_in) [
    | none ↦ (threw bad_duration, s)
    | some duration ↦ (
      got record {
        user = to_safe_user u;
        access_token = generate_access_token u.id ch.now;
        refresh_token = generate_refresh_token u.id ch.token_id ch.now;
      },
      record s { tokens = tokens.create (token_row u.id ch duration) s.tokens },
    )
  ]

  abbrev pub new_user : List ℕ → List ℕ → List ℕ → Chance → User
  new_user name email password ch = record {
    id = ch.user_id;
    email = email;
    password_hash = passwords.hash password ch.salt;
    name = name;
  }

  -- The transaction of `register`.
  abbrev pub with_workspace : User → Chance → State → State
  with_workspace u ch s = record s {
    users = users.create u s.users;
    organizations =
        organizations.create
          (record { id = ch.organization_id; name = u.name ++ codes "'s Workspace" })
          s.organizations;
    members =
        members.create
          (record { user_id = u.id; organization_id = ch.organization_id; role = owner }) s.members;
  }

  pub register : List ℕ → List ℕ → List ℕ → Chance → State → Attempt Session × State
  unfolding open_session
  register name email password ch s =
      if present (users.find (by_email email) s.users)
      then (threw (refused (AppError.conflict Code.auth_email_exists)), s)
      else open_session (new_user name email password ch) ch
          (with_workspace (new_user name email password ch) ch s)

  pub login : List ℕ → List ℕ → Chance → State → Attempt Session × State
  unfolding open_session
  login email password ch s = elim (users.find (by_email email) s.users) [
    | none ↦ (threw (refused (AppError.unauthorized Code.auth_invalid_credentials)), s)
    | some u ↦
        if passwords.compare password u.password_hash
        then open_session u ch s
        else (threw (refused (AppError.unauthorized Code.auth_invalid_credentials)), s)
  ]

  -- `storedToken.revoked`, or no row.
  abbrev pub is_revoked : Option RefreshToken → Bool
  is_revoked none = true
  is_revoked (some t) = t.revoked

  abbrev pub has_expired : ℕ → Option RefreshToken → Bool
  has_expired now none = false
  has_expired now (some t) = ltb t.expires_at now

  -- `refresh`, for the payload of the token.
  pub refresh_claims : ℕ → Claims → State → Attempt (List ℕ)
  refresh_claims now c s =
      let stored = tokens.find (by_token_id c.jti) s.tokens in
      if is_revoked stored
      then threw (refused (AppError.unauthorized Code.auth_refresh_token_revoked))
      else if has_expired now stored
      then threw (refused (AppError.unauthorized Code.auth_refresh_token_expired))
      else elim (users.find (by_user_id c.sub) s.users) [
        | none ↦ threw (refused (AppError.unauthorized Code.auth_user_not_found))
        | some u ↦ got (generate_access_token u.id now)
      ]

  pub refresh : ℕ → List ℕ → State → Attempt (List ℕ)
  unfolding refresh_claims
  refresh now token s = elim (verify_refresh_token now token) [
    | none ↦ threw (refused (AppError.unauthorized Code.auth_invalid_refresh_token))
    | some c ↦ refresh_claims now c s
  ]

  -- `logout`, which never throws.
  pub logout : ℕ → List ℕ → State → State
  logout now token s = elim (verify_refresh_token now token) [
    | none ↦ s
    | some c ↦ record s {
      tokens =
          tokens.update (by_token_id c.jti) (λ (t : RefreshToken). record t { revoked = true })
            s.tokens;
    }
  ]
