-- ===== src/Auth/Tests.antt =====
-- A registration, with tokens that are their payloads and passwords that are stored with their salt,
-- and the theorems at it.
use doc_query.Base.{
  zero, suc, ℕ, ◌≡◌, refl, ◌+◌, ◌/◌, ltb, Bool, false, none, some, List, [], ◌∷◌, arith,
  if◌then◌else◌,
}
use doc_query.Base.Table.{Table, in_memory}
use doc_query.Base.Attempt.{got}
use doc_query.Base.Errors.{ok}
use doc_query.Text.{codes, text_eq, text_eq_iff}
use doc_query.Gate.{with_token, fresh}
use doc_query.Gate.Rows as GateRows
use doc_query.Auth.{
  Settings, Chance, register, login, refresh, logout, new_user, generate_access_token,
  generate_refresh_token, parse_duration_to_ms, read_duration, open_session,
}
use doc_query.Auth.Rows.{
  User, RefreshToken, Organization, Membership, State, Kind, access, refresh_kind, Claims, Verdict,
  valid, expired, malformed, Jwt, Passwords,
}
use doc_query.Auth.Revoked.{logs_in, refreshes, run, Refused, logout-Refused}
use doc_query.Auth.Profile.{Profile, get_current_user}
use doc_query.Roles.{owner}
use doc_query.Redis.{redis_get, redis_set}
use doc_query.Redis.Sample.{function_client, nothing_stored}
use doc_query.Auth.Sessions.{seen, gate_state, session_of, register-login}

abbrev kind_code : Kind → ℕ
kind_code access = 0
kind_code refresh_kind = 1

abbrev kind_of : ℕ → Kind
kind_of zero = access
kind_of (suc n) = refresh_kind

abbrev life : ℕ
life = 900

abbrev checked_token : Kind → ℕ → List ℕ → Verdict
checked_token k t (sub ∷ ty ∷ jti ∷ now ∷ []) =
    if ltb (t / 1000) (now / 1000 + life)
    then valid (record { sub = sub; type_ = kind_of ty; jti = jti })
    else expired
checked_token k t _ = malformed

abbrev signed : Kind → Claims → ℕ → List ℕ → List ℕ
signed k c now d = c.sub ∷ kind_code c.type_ ∷ c.jti ∷ now ∷ []

checked-signed :
    (k : Kind) (c : Claims) (now later : ℕ) (d : List ℕ)
    → checked_token k later (signed k c now d)
      ≡ (if ltb (later / 1000) (now / 1000 + life) then valid c else expired)
checked-signed k c now later d = by_type c.type_
  where
    by_type :
        (ty : Kind)
        → checked_token k later (c.sub ∷ kind_code ty ∷ c.jti ∷ now ∷ []) ≡ (
            if ltb (later / 1000) (now / 1000 + life)
            then valid (record { sub = c.sub; type_ = ty; jti = c.jti })
            else expired)
    by_type access = refl
    by_type refresh_kind = refl

one_payload :
    (k : Kind) (t u : ℕ) (token : List ℕ) (c d : Claims)
    → checked_token k t token ≡ valid c
    → checked_token k u token ≡ valid d
    → c ≡ d
one_payload k t u (sub ∷ ty ∷ jti ∷ now ∷ []) c d h j = ground (arith, h, j)
one_payload k t u [] c d h j = absurd (ground (arith, h))
one_payload k t u (a ∷ []) c d h j = absurd (ground (arith, h))
one_payload k t u (a ∷ b ∷ []) c d h j = absurd (ground (arith, h))
one_payload k t u (a ∷ b ∷ e ∷ []) c d h j = absurd (ground (arith, h))
one_payload k t u (a ∷ b ∷ e ∷ f ∷ g ∷ r) c d h j = absurd (ground (arith, h))

abbrev jwt : Jwt
jwt = record {
  sign = signed;
  verify = checked_token;
  lifetime = λ d. life;
  verify-sign = checked-signed;
  payload_fixed = one_payload;
}

abbrev matches : List ℕ → List ℕ → Bool
matches p [] = false
matches p (salt ∷ q) = text_eq p q

abbrev passwords : Passwords
passwords = record {
  hash = λ p salt. salt ∷ p;
  compare = matches;
  compare-hash = λ p salt. (text_eq_iff p p).1 refl;
}

abbrev settings : Settings
settings = record { access_expires_in = codes "15m"; refresh_expires_in = codes "7d" }

abbrev users : Table User
users = in_memory

abbrev tokens : Table RefreshToken
tokens = in_memory

abbrev organizations : Table Organization
organizations = in_memory

abbrev members : Table Membership
members = in_memory

abbrev start : State
start = record { users = []; tokens = []; organizations = []; members = [] }

abbrev chance : ℕ → ℕ → Chance
chance now token_id = record {
  now = now;
  user_id = 3;
  organization_id = 7;
  token_id = token_id;
  salt = 5;
}

durations :
    (parse_duration_to_ms (codes "7d") ≡ some 604800000)
    × (parse_duration_to_ms (codes "15m") ≡ some 900000)
    × (parse_duration_to_ms (codes "d") ≡ none)
    × (parse_duration_to_ms (codes "15") ≡ none)
    × (parse_duration_to_ms (codes "1w") ≡ none)
unfolding parse_duration_to_ms read_duration
durations = (refl, refl, refl, refl, refl)

seven_days : parse_duration_to_ms settings.refresh_expires_in ≡ some 604800000
seven_days = durations.0

abbrev registered : State
registered =
    (register jwt passwords settings users tokens organizations members (codes "A") (codes "a@b")
      (codes "pw") (chance 1000 20) start).1

abbrev token : List ℕ
token = generate_refresh_token jwt passwords settings users tokens organizations members 3 20 1000

-- Before the logout the token is good.
refreshed :
    refresh jwt passwords settings users tokens organizations members 2000 token registered
    ≡ got (generate_access_token jwt passwords settings users tokens organizations members 3 2000)
unfolding refresh doc_query.Auth.refresh_claims register open_session parse_duration_to_ms
    read_duration text_eq
refreshed = refl

logout-Refused_example : Refused (
    refresh jwt passwords settings users tokens organizations members 5000 token (
      run jwt passwords settings users tokens organizations members
        (logs_in (codes "a@b") (codes "pw") (chance 4000 21) ∷ refreshes 4500 token ∷ [])
        (logout jwt passwords settings users tokens organizations members 3000 token registered)))
logout-Refused_example =
    logout-Refused jwt passwords settings users tokens organizations members 3000 5000 token
      (record { sub = 3; type_ = refresh_kind; jti = 20 })
      (logs_in (codes "a@b") (codes "pw") (chance 4000 21) ∷ refreshes 4500 token ∷ []) registered
      refl (refl, (tt, tt))

abbrev no_headers : GateRows.Request
no_headers = fresh (record { x_api_key = []; authorization = []; x_organization_id = [] })

register-login_example :
    ((login jwt passwords settings users tokens organizations members
        (codes "a@b")
        (codes "pw")
        (chance 4000 21)
        registered).0
      ≡ got (
          session_of jwt passwords settings users tokens organizations members
            (new_user jwt passwords settings users tokens organizations members
              (codes "A")
              (codes "a@b")
              (codes "pw")
              (chance 1000 20))
            (chance 4000 21)))
    × ((with_token
          (λ s. s)
          (λ t. seen (jwt.verify access 9000 t))
          (λ n. [])
          in_memory
          in_memory
          in_memory
          (generate_access_token jwt passwords settings users tokens organizations members 3 4000)
          no_headers
          (gate_state registered [] [])).0
        ≡ ok (record no_headers { user = some 3 }))
register-login_example =
    register-login jwt passwords settings users tokens organizations members (λ s. s) (λ n. [])
      in_memory in_memory in_memory [] [] (codes "A") (codes "a@b") (codes "pw") (chance 1000 20)
      (chance 4000 21) 604800000 start 9000 no_headers seven_days refl refl

-- The profile of an owner.
abbrev acme : Organization
acme = record { id = 5; name = codes "ACME" }

abbrev one_owner : State
one_owner = record {
  users = record { id = 3; email = codes "a@b"; password_hash = []; name = codes "A" } ∷ [];
  tokens = [];
  organizations = acme ∷ [];
  members = record { user_id = 3; organization_id = 5; role = owner } ∷ [];
}

abbrev profile : Profile
profile = record {
  user = record { id = 3; email = codes "a@b"; name = codes "A" };
  organizations = record { organization = some acme; role = owner } ∷ [];
}

profile_given :
    (get_current_user
      (λ n. n ∷ [])
      users
      organizations
      members
      function_client
      3
      one_owner
      nothing_stored).0
    ≡ some profile
unfolding get_current_user redis_get redis_set
profile_given = refl
