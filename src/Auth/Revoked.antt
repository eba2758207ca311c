-- ===== src/Auth/Revoked.antt =====
-- What a logout is worth (modules/auth/auth.service.js).
use doc_query.Base.{
  ℕ, ◌≡◌, refl, ◌∙◌, ap, sym, subst, ◌==◌, Bool, true, false, Option, none, some, List, [], ◌∷◌,
  ◌++◌, first, All, arith, present, if◌then◌else◌,
}
use doc_query.Base.Table.{Table, update_where}
use doc_query.Base.Attempt.{Attempt, got, threw}
use doc_query.Base.Errors.{Code, AppError}
use doc_query.Auth.{
  refused, Settings, Chance, open_session, register, login, refresh, refresh_claims, logout,
  is_revoked, checked, verify_refresh_token, new_user, parse_duration_to_ms,
}
use doc_query.Auth.Rows.{
  User, RefreshToken, Organization, Membership, State, by_token_id, refresh_kind, Claims, Verdict,
  valid, expired, malformed, Jwt, Passwords,
}

-- A call of the service.
pub data Call : Type 0 where
  registers : List ℕ → List ℕ → List ℕ → Chance → Call
  logs_in : List ℕ → List ℕ → Chance → Call
  refreshes : ℕ → List ℕ → Call
  logs_out : ℕ → List ℕ → Call

-- The identifier of a new refresh token is new.
abbrev pub Fresh : ℕ → Call → Type 0
Fresh j (registers name email password ch) = (ch.token_id == j) ≡ false
Fresh j (logs_in email password ch) = (ch.token_id == j) ≡ false
Fresh j _ = Unit

abbrev pub Refused : Attempt (List ℕ) → Type 0
Refused (got token) = ⊥
Refused (threw e) = Unit

-- No row of a refresh token lets it be used.
abbrev Dead : ℕ → List RefreshToken → Type 0
Dead j rows = (elim (first (by_token_id j) rows) [ none ↦ true | some t ↦ t.revoked ]) ≡ true

Dead-snoc :
    (j : ℕ) (rows : List RefreshToken) (t : RefreshToken)
    → (t.id == j) ≡ false
    → Dead j rows
    → Dead j (rows ++ t ∷ [])
Dead-snoc j [] t h d = ground (arith, h)
Dead-snoc j (x ∷ rows) t h d = ground (arith, h, d, Dead-snoc j rows t h)

abbrev revoke : RefreshToken → RefreshToken
revoke t = record t { revoked = true }

Dead-revoke :
    (j k : ℕ) (rows : List RefreshToken)
    → Dead j rows
    → Dead j (update_where (by_token_id k) revoke rows)
Dead-revoke j k [] d = refl
Dead-revoke j k (x ∷ rows) d = ground (arith, d, Dead-revoke j k rows)

revoke-Dead : (j : ℕ) (rows : List RefreshToken) → Dead j (update_where (by_token_id j) revoke rows)
revoke-Dead j [] = refl
revoke-Dead j (x ∷ rows) = ground (arith, revoke-Dead j rows)

module _ (jwt : Jwt) (passwords : Passwords) (st : Settings) (users : Table User)
    (tokens : Table RefreshToken) (organizations : Table Organization)
    (members : Table Membership) where
  abbrev perform : Call → State → State
  perform (registers name email password ch) s =
      (register jwt passwords st users tokens organizations members name email password ch s).1
  perform (logs_in email password ch) s =
      (login jwt passwords st users tokens organizations members email password ch s).1
  perform (refreshes now token) s = s
  perform (logs_out now token) s =
      logout jwt passwords st users tokens organizations members now token s

  -- The calls, one after the other.
  abbrev pub run : List Call → State → State
  run [] s = s
  run (c ∷ cs) s = run cs (perform c s)

  Dead-if :
      {A : Type 0} (j : ℕ) (b : Bool) (x y : A × State)
      → Dead j x.1.tokens
      → Dead j y.1.tokens
      → Dead j (if b then x else y).1.tokens
  Dead-if j true x y h k = h
  Dead-if j false x y h k = k

  Dead-option :
      {A B : Type 0} (j : ℕ) (o : Option B) (x : A × State) (f : B → A × State)
      → Dead j x.1.tokens
      → ((b : B) → Dead j (f b).1.tokens)
      → Dead j (elim o as (λ _. A × State) [ none ↦ x | some b ↦ f b ]).1.tokens
  Dead-option j none x f h k = h
  Dead-option j (some b) x f h k = k b

  Dead-open_session :
      (j : ℕ) (u : User) (ch : Chance) (s : State)
      → (ch.token_id == j) ≡ false
      → Dead j s.tokens
      → Dead j (open_session jwt passwords st users tokens organizations members u ch s).1.tokens
  unfolding open_session
  Dead-open_session j u ch s new d =
      Dead-option j (parse_duration_to_ms st.refresh_expires_in) _ _ d
        λ n. subst (Dead j) (sym (tokens.create_lem _ s.tokens)) (Dead-snoc j s.tokens _ new d)

  Dead-logout :
      (j now : ℕ) (token : List ℕ) (s : State)
      → Dead j s.tokens
      → Dead j (logout jwt passwords st users tokens organizations members now token s).tokens
  unfolding logout
  Dead-logout j now token s d =
      by_claims (verify_refresh_token jwt passwords st users tokens organizations members now token)
    where
      by_claims :
          (o : Option Claims)
          → Dead j
              (elim o as (λ _. State) [
                | none ↦ s
                | some c ↦ record s { tokens = tokens.update (by_token_id c.jti) revoke s.tokens }
              ]).tokens
      by_claims none = d
      by_claims (some c) =
          subst (Dead j) (sym (tokens.update_lem _ _ s.tokens)) (Dead-revoke j c.jti s.tokens d)

  perform-Dead :
      (j : ℕ) (c : Call) (s : State) → Fresh j c → Dead j s.tokens → Dead j (perform c s).tokens
  unfolding register login
  perform-Dead j (registers name email password ch) s new d =
      Dead-if j (present (users.find _ s.users)) _ _ d (
        Dead-open_session j
          (new_user jwt passwords st users tokens organizations members name email password ch) ch _
          new d)
  perform-Dead j (logs_in email password ch) s new d =
      Dead-option j (users.find _ s.users) _ _ d λ u.
        Dead-if j (passwords.compare password u.password_hash) _ _
          (Dead-open_session j u ch s new d) d
  perform-Dead j (refreshes now token) s new d = d
  perform-Dead j (logs_out now token) s new d = Dead-logout j now token s d

  run-Dead :
      (j : ℕ) (cs : List Call) (s : State)
      → All (Fresh j) cs
      → Dead j s.tokens
      → Dead j (run cs s).tokens
  run-Dead j [] s new d = d
  run-Dead j (c ∷ cs) s new d = run-Dead j cs (perform c s) new.1 (perform-Dead j c s new.0 d)

  logout-Dead :
      (now : ℕ) (token : List ℕ) (c : Claims) (s : State)
      → verify_refresh_token jwt passwords st users tokens organizations members now token ≡ some c
      → Dead c.jti (logout jwt passwords st users tokens organizations members now token s).tokens
  unfolding logout
  logout-Dead now token c s h =
      rw (h, logout)
        (subst (Dead c.jti) (sym (tokens.update_lem _ _ s.tokens)) (revoke-Dead c.jti s.tokens))

  refresh_claims-Refused :
      (now : ℕ) (c : Claims) (s : State)
      → Dead c.jti s.tokens
      → Refused (refresh_claims jwt passwords st users tokens organizations members now c s)
  unfolding refresh_claims
  refresh_claims-Refused now c s d =
      let stored : is_revoked jwt passwords st users tokens organizations members
            (tokens.find (by_token_id c.jti) s.tokens)
          ≡ true =
        ap (is_revoked jwt passwords st users tokens organizations members)
          (tokens.find_lem (by_token_id c.jti) s.tokens)
        ∙ ground (arith, d) in
      rw (stored, refresh_claims) tt

  checked-valid :
      (v : Verdict) (c : Claims)
      → checked jwt passwords st users tokens organizations members v ≡ some c
      → v ≡ valid c
  checked-valid (valid x) c h = ground (arith, h)
  checked-valid expired c h = absurd (ground (arith, h))
  checked-valid malformed c h = absurd (ground (arith, h))

  same_claims :
      (t u : ℕ) (token : List ℕ) (c d : Claims)
      → verify_refresh_token jwt passwords st users tokens organizations members t token ≡ some c
      → verify_refresh_token jwt passwords st users tokens organizations members u token ≡ some d
      → c ≡ d
  same_claims t u token c d h k =
      jwt.payload_fixed refresh_kind t u token c d (checked-valid _ c h) (checked-valid _ d k)

  -- After a logout with a refresh token that is valid then, that token is refused for ever: whatever is
  -- called in between, by whom and when, `refresh` never gives an access token for it.
  pub logout-Refused :
      (now later : ℕ) (token : List ℕ) (c : Claims) (calls : List Call) (s : State)
      → verify_refresh_token jwt passwords st users tokens organizations members now token ≡ some c
      → All (Fresh c.jti) calls
      → Refused (
          refresh jwt passwords st users tokens organizations members later token
            (run calls (logout jwt passwords st users tokens organizations members now token s)))
  unfolding refresh
  logout-Refused now later token c calls s h new =
      let after =
        run calls (logout jwt passwords st users tokens organizations members now token s) in
      let dead = run-Dead c.jti calls _ new (logout-Dead now token c s h) in
      by_claims after dead
        (verify_refresh_token jwt passwords st users tokens organizations members later token) refl
    where
      by_claims :
          (after : State)
          → Dead c.jti after.tokens
          → (o : Option Claims)
          → verify_refresh_token jwt passwords st users tokens organizations members later token ≡ o
          → Refused (elim o as (λ _. Attempt (List ℕ)) [
            | none ↦ threw (refused (AppError.unauthorized Code.auth_invalid_refresh_token))
            | some d ↦
                refresh_claims jwt passwords st users tokens organizations members later d after
          ])
      by_claims after dead none k = tt
      by_claims after dead (some d) k = refresh_claims-Refused later d after (
          subst (λ (x : Claims). Dead x.jti after.tokens) (same_claims now later token c d h k)
            dead)
