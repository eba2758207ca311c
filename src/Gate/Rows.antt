-- ===== src/Gate/Rows.antt =====
-- The parts of a request that the middleware reads and writes, and the tables that it looks at.
use doc_query.Base.{ℕ, Bool, Option, List}
use doc_query.Roles.{Role}
use doc_query.ApiKeys.Rows.{ApiKey}

-- An absent header is the empty text: the middleware treats both alike.
pub record Headers : Type 0 where
  pub x_api_key : List ℕ
  pub authorization : List ℕ
  pub x_organization_id : List ℕ

pub record Member : Type 0 where
  pub user_id : ℕ
  pub organization_id : ℕ
  pub role : Role
  pub suspended : Bool

pub record Request : Type 0 where
  pub headers : Headers
  pub api_key : Option ApiKey
  pub user : Option ℕ
  pub organization : Option ℕ
  pub membership : Option Member

pub record State : Type 0 where
  pub keys : List ApiKey
  pub users : List ℕ
  pub members : List Member

-- What `jwt.verify` (a package) makes of a token: a payload with its subject, and whether its
-- `type` is the one that is asked for; or one of its two errors.
pub data Verified : Type 0 where
  payload : ℕ → Bool → Verified
  expired malformed : Verified
