-- ===== src/ApiKeys/Rows.antt =====
-- `model ApiKey` of prisma/schema.prisma, and the tests of the service's `where` clauses.
use doc_query.Base.{ℕ, Bool, ◌&&◌, ◌==◌, Option, List}
use doc_query.Text.{text_eq}

pub record ApiKey : Type 0 where
  pub id : ℕ
  pub organization_id : ℕ
  pub created_by : ℕ
  pub name : List ℕ
  pub key_prefix : List ℕ
  pub hashed_secret : List ℕ
  pub scopes : List (List ℕ)
  pub expires_at : Option ℕ
  pub revoked_at : Option ℕ
  pub last_used_at : Option ℕ

abbrev pub has_hash : List ℕ → ApiKey → Bool
has_hash h k = text_eq k.hashed_secret h

abbrev pub by_id : ℕ → ApiKey → Bool
by_id id k = k.id == id

-- `where: { id: apiKeyId, organizationId }`
abbrev pub in_org : ℕ → ℕ → ApiKey → Bool
in_org id org k = k.id == id && k.organization_id == org
