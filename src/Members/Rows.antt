-- ===== src/Members/Rows.antt =====
-- The rows of `model OrganizationMember` of prisma/schema.prisma, and the tests that the member
-- service puts in its `where` clauses.
use doc_query.Base.{ℕ, Bool, ◌&&◌, ◌==◌, List}
use doc_query.Base.Keyed.{Distinct}
use doc_query.Roles.{Role, is_owner}

-- The columns of `model User` that the member service selects.
pub record User : Type 0 where
  pub id : ℕ
  pub email : ℕ
  pub name : ℕ

pub record Membership : Type 0 where
  pub id : ℕ
  pub user_id : ℕ
  pub organization_id : ℕ
  pub role : Role
  pub suspended : Bool
  pub created_at : ℕ

-- `where: { userId_organizationId: { userId, organizationId } }`
abbrev pub of_user : ℕ → ℕ → Membership → Bool
of_user user org m = m.user_id == user && m.organization_id == org

-- `where: { id }`
abbrev pub by_id : ℕ → Membership → Bool
by_id k m = m.id == k

-- `where: { organizationId, role: 'OWNER' }`
abbrev pub owns : ℕ → Membership → Bool
owns org m = m.organization_id == org && is_owner m.role

abbrev pub id_of : Membership → ℕ
id_of m = m.id

-- `id` is the primary key.
abbrev pub DistinctIds : List Membership → Type 0
DistinctIds = Distinct id_of
