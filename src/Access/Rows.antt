-- ===== src/Access/Rows.antt =====
-- `model Document` and `model DocumentPermission` of prisma/schema.prisma, the columns that the
-- access service reads, and the tests of its `where` clauses.
use doc_query.Base.{ℕ, Bool, ◌&&◌, ◌==◌, Option, List}
use doc_query.Roles.{Role}

-- `enum PermissionLevel`
pub data Level : Type 0 where
  read write admin : Level

-- `enum PermissionGranteeType`
pub data Grantee : Type 0 where
  user role organization : Grantee

pub record Grant : Type 0 where
  pub id : ℕ
  pub document_id : ℕ
  pub grantee_type : Grantee
  pub grantee_id : Option ℕ
  pub grantee_role : Option Role
  pub permission : Level

pub record Document : Type 0 where
  pub id : ℕ
  pub organization_id : ℕ
  pub user_id : ℕ

pub record State : Type 0 where
  pub documents : List Document
  pub grants : List Grant

-- `where: { id: documentId, organizationId }`
abbrev pub in_org : ℕ → ℕ → Document → Bool
in_org id org d = d.id == id && d.organization_id == org

-- `where: { organizationId }`
abbrev pub of_org : ℕ → Document → Bool
of_org org d = d.organization_id == org

-- `where: { documentId }`
abbrev pub of_document : ℕ → Grant → Bool
of_document id g = g.document_id == id

-- `where: { id: permissionId, documentId }`
abbrev pub grant_of : ℕ → ℕ → Grant → Bool
grant_of id doc g = g.id == id && g.document_id == doc

-- `where: { id }`
abbrev pub by_id : ℕ → Grant → Bool
by_id id g = g.id == id
