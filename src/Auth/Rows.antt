-- ===== src/Auth/Rows.antt =====
-- `model User`, `model RefreshToken`, `model Organization` and `model OrganizationMember` of
-- prisma/schema.prisma, as modules/auth/auth.service.js reads and writes them, and what it takes from
-- the packages for tokens and passwords.
use doc_query.Base.{ℕ, ◌≡◌, ◌+◌, ◌/◌, ◌==◌, ltb, Bool, true, List, if◌then◌else◌}
use doc_query.Text.{text_eq}
use doc_query.Roles.{Role}

pub record User : Type 0 where
  pub id : ℕ
  pub email : List ℕ
  pub password_hash : List ℕ
  pub name : List ℕ

pub record RefreshToken : Type 0 where
  pub id : ℕ
  pub token : List ℕ
  pub user_id : ℕ
  pub expires_at : ℕ
  pub revoked : Bool

pub record Organization : Type 0 where
  pub id : ℕ
  pub name : List ℕ

pub record Membership : Type 0 where
  pub user_id : ℕ
  pub organization_id : ℕ
  pub role : Role

pub record State : Type 0 where
  pub users : List User
  pub tokens : List RefreshToken
  pub organizations : List Organization
  pub members : List Membership

-- `where: { email }`, `where: { id }`
abbrev pub by_email : List ℕ → User → Bool
by_email email u = text_eq u.email email

abbrev pub by_user_id : ℕ → User → Bool
by_user_id id u = u.id == id

abbrev pub by_token_id : ℕ → RefreshToken → Bool
by_token_id id t = t.id == id

-- The two secrets, and the two values of `type` in a payload.
pub data Kind : Type 0 where
  access refresh_kind : Kind

-- A payload; `jti` is read for refresh tokens only.
pub record Claims : Type 0 where
  pub sub : ℕ
  pub type_ : Kind
  pub jti : ℕ

-- What `jwt.verify` makes of a token.
pub data Verdict : Type 0 where
  valid : Claims → Verdict
  expired malformed : Verdict

-- The token package: a token that it signed is valid for its lifetime, in whole seconds, and the
-- payload is part of the token. A duration is a text.
pub record Jwt : Type 0 where
  pub sign : Kind → Claims → ℕ → List ℕ → List ℕ
  pub verify : Kind → ℕ → List ℕ → Verdict
  pub lifetime : List ℕ → ℕ
  pub verify-sign :
      (k : Kind) (c : Claims) (now later : ℕ) (duration : List ℕ)
      → verify k later (sign k c now duration)
        ≡ (if ltb (later / 1000) (now / 1000 + lifetime duration) then valid c else expired)
  pub payload_fixed :
      (k : Kind) (t u : ℕ) (token : List ℕ) (c d : Claims)
      → verify k t token ≡ valid c
      → verify k u token ≡ valid d
      → c ≡ d

-- The password package; a hash depends on a random salt.
pub record Passwords : Type 0 where
  pub hash : List ℕ → ℕ → List ℕ
  pub compare : List ℕ → List ℕ → Bool
  pub compare-hash : (password : List ℕ) (salt : ℕ) → compare password (hash password salt) ≡ true
