-- ===== src/Access/Tenants.antt =====
-- Tenants (modules/documents/services/document-access.service.js): `canAccessDocument` answers for
-- an owner or an administrator before it looks for the document in the organization.
use doc_query.Base.{
  ℕ, ◌≡◌, true, false, some, Option, List, [], ◌∷◌, ◌++◌, first, arith, Option-cases, inl, inr,
}
use doc_query.Base.Table.{Table}
use doc_query.Base.Errors.{ok}
use doc_query.Roles.{Role}
use doc_query.Access.{manages, can_access_document, grant_permission, list_permissions}
use doc_query.Access.Rows.{Level, Grantee, Grant, Document, State, in_org, of_document}

first-in_org :
    (id org : ℕ) (docs : List Document) (d : Document)
    → first (in_org id org) docs ≡ some d
    → (d.id ≡ id) × (d.organization_id ≡ org)
first-in_org id org [] d h = ground arith
first-in_org id org (x ∷ docs) d h = ground (arith, first-in_org id org docs d)

module _ (documents : Table Document) (grants : Table Grant) where
  -- For everyone else the check stays within the tenant: who passes it, at any level, asked for
  -- a document of the organization.
  pub access_stays_in_org :
      (u : ℕ) (r : Role) (org id : ℕ) (required : Level) (s : State)
      → manages r ≡ false
      → can_access_document documents grants u r org id required s ≡ true
      → (d : Document) × (first (in_org id org) s.documents ≡ some d)
        × (d.id ≡ id)
        × (d.organization_id ≡ org)
  unfolding can_access_document
  access_stays_in_org u r org id required s low e =
      elim (Option-cases (first (in_org id org) s.documents)) [
        | inl missing ↦ absurd (ground (arith, documents.find_lem (in_org id org) s.documents))
        | inr (d, found) ↦
            let (same_id, same_org) = first-in_org id org s.documents d found in
            (d, found, same_id, same_org)
      ]

  -- An owner or administrator of any organization can grant access to every document, in that
  -- organization or not, and can read its list of grants: the grant is stored under the document
  -- that was named.
  pub manager_grants_anywhere :
      (new_id org id actor : ℕ) (actor_role : Role) (t : Grantee) (gid : Option ℕ)
      (grole : Option Role) (level : Level) (s : State)
      → manages actor_role ≡ true
      → let row : Grant = record {
        id = new_id;
        document_id = id;
        grantee_type = t;
        grantee_id = gid;
        grantee_role = grole;
        permission = level;
      } in
        (grant_permission documents grants new_id org id actor actor_role t gid grole (some level) s
          ≡ (ok row, record s { grants = s.grants ++ row ∷ [] }))
        × (list_permissions documents grants org id actor actor_role s
            ≡ (ok (grants.find_many (of_document id) s.grants), s))
  unfolding grant_permission list_permissions can_access_document
  manager_grants_anywhere new_id org id actor actor_role t gid grole level s h =
      let row : Grant = record {
        id = new_id;
        document_id = id;
        grantee_type = t;
        grantee_id = gid;
        grantee_role = grole;
        permission = level;
      } in
      (ground (arith, grants.create_lem row s.grants), ground arith)
