-- ===== src/Access.antt =====
-- modules/documents/services/document-access.service.js: who may read, write and administer one
-- document, which documents a search may look at, and the grants.
pub mod Rows
pub mod Levels
pub mod Filter
pub mod Grants
pub mod Tenants
mod Tests
use doc_query.Base.{
  ℕ, Bool, true, false, not, ◌&&◌, ◌||◌, ◌==◌, ltb, Option, none, some, List, [], ◌∷◌, any,
  is_some_eq, or_else, if◌then◌else◌, present,
}
use doc_query.Base.Table.{Table}
use doc_query.Base.Errors.{
  Code, AppError, Action, pure, throw_if, gets, or_throw, modify, ◌>>=◌, ◌>>◌,
}
use doc_query.Roles.{Role, owner, admin, is_viewer, same_role}
use Rows.{
  Level, read, write, Grantee, user, role, organization, Grant, Document, State, in_org, of_org,
  of_document, grant_of, by_id,
}

-- `PERMISSION_HIERARCHY`
abbrev pub weight : Level → ℕ
weight read = 1
weight write = 2
weight Level.admin = 3

-- `userRole === 'OWNER' || userRole === 'ADMIN'`
abbrev pub manages : Role → Bool
manages owner = true
manages admin = true
manages _ = false

-- `requiredLevel === 'READ'`, `requiredLevel === 'WRITE'`
abbrev is_read : Level → Bool
is_read read = true
is_read _ = false

abbrev is_write : Level → Bool
is_write write = true
is_write _ = false

-- The default access of a document that has no grants.
abbrev pub default_access : Level → Role → Bool
default_access read r = true
default_access write r = not (is_viewer r)
default_access Level.admin r = false

-- The three tests of a grant's grantee.
abbrev pub names_user : ℕ → Role → Grantee → Option ℕ → Option Role → Bool
names_user u r organization i k = true
names_user u r user i k = is_some_eq i u
names_user u r role i none = false
names_user u r role i (some k) = same_role k r

-- One round of the loop over a document's grants: does this one let the user in?
abbrev pub lets_in : ℕ → Role → Level → Grant → Bool
lets_in user_id user_role required g =
    if ltb (weight g.permission) (weight required)
    then false
    else names_user user_id user_role g.grantee_type g.grantee_id g.grantee_role

-- What `canAccessDocument` does with a document that was found, for a user who does not manage.
abbrev pub allowed : ℕ → Role → Level → Document → List Grant → Bool
allowed user_id user_role required doc grants =
    if doc.user_id == user_id then true else elim grants [
      | [] ↦ default_access required user_role
      | g ∷ gs ↦ any (lets_in user_id user_role required) (g ∷ gs)
    ]

-- The same decision as `getAccessibleDocumentIds` writes it, in the body of its loop: the tests of
-- `some`, the document without grants, and whether the identifier is pushed.
abbrev is_organization : Grantee → Bool
is_organization organization = true
is_organization _ = false

abbrev is_user : Grantee → Bool
is_user user = true
is_user _ = false

abbrev is_role : Grantee → Bool
is_role role = true
is_role _ = false

abbrev is_some_role : Option Role → Role → Bool
is_some_role none r = false
is_some_role (some k) r = same_role k r

abbrev pub has_grant : ℕ → Role → ℕ → Grant → Bool
has_grant user_id user_role required_weight perm =
    if ltb (weight perm.permission) required_weight
    then false
    else if is_organization perm.grantee_type
    then true
    else if is_user perm.grantee_type && is_some_eq perm.grantee_id user_id
    then true
    else is_role perm.grantee_type && is_some_role perm.grantee_role user_role

abbrev pub is_listed_by_default : Level → Role → Bool
is_listed_by_default required user_role =
    if is_read required then true else is_write required && not (is_viewer user_role)

abbrev pub is_listed : ℕ → Role → Level → Document → List Grant → Bool
is_listed user_id user_role required doc [] =
    (doc.user_id == user_id) || is_listed_by_default required user_role
is_listed user_id user_role required doc (g ∷ gs) =
    (doc.user_id == user_id) || any (has_grant user_id user_role (weight required)) (g ∷ gs)

module _ (documents : Table Document) (grants : Table Grant) where
  unfoldable pub can_access_document : ℕ → Role → ℕ → ℕ → Level → State → Bool
  can_access_document user_id user_role org document_id required s =
      if manages user_role
      then true
      else elim (documents.find (in_org document_id org) s.documents) [
        | none ↦ false
        | some doc ↦
            allowed user_id user_role required doc (grants.find_many (of_document doc.id) s.grants)
      ]

  -- The loop of `getAccessibleDocumentIds`.
  unfoldable pub accessible : ℕ → Role → Level → State → List Document → List ℕ
  accessible user_id user_role required s [] = []
  accessible user_id user_role required s (doc ∷ docs) =
      let rest = accessible user_id user_role required s docs in
      if is_listed user_id user_role required doc (grants.find_many (of_document doc.id) s.grants)
      then doc.id ∷ rest
      else rest

  -- `none` stands for every document of the organization.
  unfoldable pub get_accessible_document_ids : ℕ → Role → ℕ → Level → State → Option (List ℕ)
  unfolding accessible
  get_accessible_document_ids user_id user_role org required s =
      if manages user_role
      then none
      else some
          (accessible user_id user_role required s (documents.find_many (of_org org) s.documents))

  -- `grantPermission`. The database chooses the `id`; `permission || 'READ'`.
  pub grant_permission :
      ℕ → ℕ → ℕ → ℕ → Role → Grantee → Option ℕ → Option Role → Option Level → Action State Grant
  unfolding can_access_document
  grant_permission new_id org document_id actor actor_role grantee_type grantee_id grantee_role
        permission =
      do
        has_admin ← gets (can_access_document actor actor_role org document_id Level.admin)
        throw_if (not has_admin) (AppError.forbidden Code.document_access_denied)
        let row : Grant = record {
          id = new_id;
          document_id = document_id;
          grantee_type = grantee_type;
          grantee_id = grantee_id;
          grantee_role = grantee_role;
          permission = or_else permission read;
        }
        modify (λ s. record s { grants = grants.create row s.grants })
        pure row

  pub list_permissions : ℕ → ℕ → ℕ → Role → Action State (List Grant)
  unfolding can_access_document
  list_permissions org document_id actor actor_role = do
    can_read ← gets (can_access_document actor actor_role org document_id read)
    throw_if (not can_read) (AppError.forbidden Code.document_access_denied)
    gets (λ s. grants.find_many (of_document document_id) s.grants)

  pub revoke_permission : ℕ → ℕ → ℕ → ℕ → Role → Action State (Unit {0})
  unfolding can_access_document
  revoke_permission org document_id permission_id actor actor_role = do
    has_admin ← gets (can_access_document actor actor_role org document_id Level.admin)
    throw_if (not has_admin) (AppError.forbidden Code.document_access_denied)
    found ← gets (λ s. grants.find (grant_of permission_id document_id) s.grants)
    throw_if (not (present found)) (AppError.not_found Code.permission_not_found)
    modify (λ s. record s { grants = grants.delete (by_id permission_id) s.grants })
