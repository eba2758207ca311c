-- ===== src/Auth/Sessions.antt =====
-- From registration to a request with an access token (modules/auth/auth.service.js with
-- middleware/auth.middleware.js).
use doc_query.Base.{
  ℕ, ◌≡◌, refl, ◌∙◌, ap, ◌+◌, ◌/◌, ◌==◌, ==_iff, ltb, Bool, true, false, none, some, List, [], ◌∷◌,
  ◌++◌, map, first, arith, present,
}
use doc_query.Base.Table.{Table}
use doc_query.Base.Keyed.{first-snoc}
use doc_query.Base.Attempt.{got}
use doc_query.Base.Errors.{ok}
use doc_query.Text.{text_eq_iff}
use doc_query.Gate.{with_token}
use doc_query.Gate.Rows as GateRows
use doc_query.Gate.Rows.{Verified, payload, Request}
use doc_query.ApiKeys.Rows.{ApiKey}
use doc_query.Auth.{
  Session, Settings, Chance, open_session, register, login, new_user, with_workspace, to_safe_user,
  generate_access_token, generate_refresh_token, parse_duration_to_ms,
}
use doc_query.Auth.Rows.{
  User, RefreshToken, Organization, Membership, State, by_email, Kind, access, refresh_kind, Claims,
  Verdict, valid, expired, malformed, Jwt, Passwords,
}

-- What the middleware sees of a verified access token.
abbrev is_access : Kind → Bool
is_access access = true
is_access refresh_kind = false

abbrev pub seen : Verdict → Verified
seen (valid c) = payload c.sub (is_access c.type_)
seen expired = GateRows.expired
seen malformed = GateRows.malformed

abbrev pub gate_state : State → List ApiKey → List GateRows.Member → GateRows.State
gate_state s keys members = record {
  keys = keys;
  users = map (λ (u : User). u.id) s.users;
  members = members;
}

present-id :
    (us : List User) (u : User)
    → present (first (λ x. x == u.id) (map (λ (v : User). v.id) (us ++ u ∷ []))) ≡ true
present-id [] u = ground (arith, (==_iff u.id u.id).1 refl)
present-id (v ∷ us) u = ground (arith, present-id us u)

module _ (jwt : Jwt) (passwords : Passwords) (st : Settings) (users : Table User)
    (tokens : Table RefreshToken) (organizations : Table Organization)
    (members : Table Membership) where
  -- The session of a user at a time.
  abbrev pub session_of : User → Chance → Session
  session_of u ch = record {
    user = to_safe_user u;
    access_token =
        generate_access_token jwt passwords st users tokens organizations members u.id ch.now;
    refresh_token =
        generate_refresh_token jwt passwords st users tokens organizations members u.id ch.token_id
          ch.now;
  }

  open_session-users :
      (u : User) (ch : Chance) (s : State)
      → (open_session jwt passwords st users tokens organizations members u ch s).1.users ≡ s.users
  unfolding open_session
  open_session-users u ch s = ground arith

  registered :
      (name email password : List ℕ) (ch : Chance) (s : State)
      → first (by_email email) s.users ≡ none
      → (register jwt passwords st users tokens organizations members name email password ch
          s).1.users
        ≡ s.users
          ++ new_user jwt passwords st users tokens organizations members name email password ch
            ∷ []
  unfolding register
  registered name email password ch s free =
      let u = new_user jwt passwords st users tokens organizations members name email password ch in
      rw (users.find_lem (by_email email) s.users ∙ free, register)
        (open_session-users u ch
            (with_workspace jwt passwords st users tokens organizations members u ch s)
          ∙ users.create_lem u s.users)

  logged_in :
      (email password : List ℕ) (salt : ℕ) (u : User) (later : Chance) (n : ℕ) (r : State)
      → parse_duration_to_ms st.refresh_expires_in ≡ some n
      → users.find (by_email email) r.users ≡ some u
      → u.password_hash ≡ passwords.hash password salt
      → (login jwt passwords st users tokens organizations members email password later r).0
        ≡ got (session_of u later)
  unfolding login open_session
  logged_in email password salt u later n r d found hashed =
      let matches : passwords.compare password u.password_hash ≡ true =
        ap (passwords.compare password) hashed ∙ passwords.compare-hash password salt in
      ground (arith, found, matches, d)

  token_passes :
      (sha256 : List ℕ → List ℕ) (uuid_text : ℕ → List ℕ) (keys : Table ApiKey) (ids : Table ℕ)
      (gate_members : Table GateRows.Member) (user now t : ℕ) (req : Request) (g : GateRows.State)
      → ltb (t / 1000) (now / 1000 + jwt.lifetime st.access_expires_in) ≡ true
      → present (first (λ x. x == user) g.users) ≡ true
      → (with_token sha256
          (λ token. seen (jwt.verify access t token))
          uuid_text
          keys
          ids
          gate_members
          (generate_access_token jwt passwords st users tokens organizations members user now)
          req
          g).0
        ≡ ok (record req { user = some user })
  unfolding with_token
  token_passes sha256 uuid_text keys ids gate_members user now t req g live known =
      let claims : Claims = record { sub = user; type_ = access; jti = 0 } in
      let good : jwt.verify access t (jwt.sign access claims now st.access_expires_in)
          ≡ valid claims =
        jwt.verify-sign access claims now t st.access_expires_in ∙ rw live refl in
      let there : present (ids.find (λ x. x == user) g.users) ≡ true =
        ap present (ids.find_lem (λ x. x == user) g.users) ∙ known in
      rw (good, there, with_token) refl

  -- Whoever registers with an address that nobody has can log in with it and their password, and gets
  -- a session of the user that was registered, whose access token passes the check of the middleware
  -- for that user, as long as its lifetime is not over.
  pub register-login :
      (sha256 : List ℕ → List ℕ) (uuid_text : ℕ → List ℕ) (keys : Table ApiKey) (ids : Table ℕ)
      (gate_members : Table GateRows.Member) (api_keys : List ApiKey) (rows : List GateRows.Member)
      (name email password : List ℕ) (ch later : Chance) (n : ℕ) (s : State) (t : ℕ) (req : Request)
      → parse_duration_to_ms st.refresh_expires_in ≡ some n
      → first (by_email email) s.users ≡ none
      → ltb (t / 1000) (later.now / 1000 + jwt.lifetime st.access_expires_in) ≡ true
      → ((login jwt passwords st users tokens organizations members email password later
            (register jwt passwords st users tokens organizations members name email password ch
              s).1).0
          ≡ got (
              session_of
                (new_user jwt passwords st users tokens organizations members name email password
                  ch)
                later))
        × ((with_token sha256
              (λ token. seen (jwt.verify access t token))
              uuid_text
              keys
              ids
              gate_members
              (generate_access_token jwt passwords st users tokens organizations members ch.user_id
                later.now)
              req
              (gate_state
                (register jwt passwords st users tokens organizations members name email password ch
                  s).1
                api_keys
                rows)).0
            ≡ ok (record req { user = some ch.user_id }))
  register-login sha256 uuid_text keys ids gate_members api_keys rows name email password ch later n
        s t req d free live =
      let u = new_user jwt passwords st users tokens organizations members name email password ch in
      let r =
        (register jwt passwords st users tokens organizations members name email password ch s).1 in
      let rows_after = registered name email password ch s free in
      let found : users.find (by_email email) r.users ≡ some u =
        users.find_lem (by_email email) r.users
        ∙ ap (first (by_email email)) rows_after
        ∙ first-snoc (by_email email) s.users u free ((text_eq_iff email email).1 refl) in
      let known : present (first (λ x. x == u.id) (map (λ (v : User). v.id) r.users)) ≡ true =
        ap (λ us. present (first (λ x. x == u.id) (map (λ (v : User). v.id) us))) rows_after
        ∙ present-id s.users u in
      (
        logged_in email password ch.salt u later n r d found refl,
        token_passes sha256 uuid_text keys ids gate_members u.id later.now t req
            (gate_state r api_keys rows) live known,
      )
