-- ===== src/Access/Tests.antt =====
-- Runs of the access service on a small table, and the theorems about it at such inputs.
use doc_query.Base.{◌≡◌, refl, true, false, none, some, [], ◌∷◌, contains, first, arith}
use doc_query.Base.Table.{Table, in_memory}
use doc_query.Base.Errors.{Code, AppError, ok, err}
use doc_query.Roles.{admin, member, viewer}
use doc_query.Access.{
  can_access_document, get_accessible_document_ids, grant_permission, list_permissions,
  revoke_permission,
}
use doc_query.Access.Rows.{read, write, user, organization, Grant, Document, State, in_org}
use doc_query.Access.Filter.{accessible-agrees}
use doc_query.Access.Tenants.{access_stays_in_org, manager_grants_anywhere}

abbrev documents : Table Document
documents = in_memory

abbrev grants : Table Grant
grants = in_memory

abbrev shared : Grant
shared = record {
  id = 51;
  document_id = 2;
  grantee_type = user;
  grantee_id = some 30;
  grantee_role = none;
  permission = write;
}

-- Organization 7 has the documents 1 and 2, organization 8 the document 3.
abbrev start : State
start = record {
  documents =
      record { id = 1; organization_id = 7; user_id = 10 }
      ∷ record { id = 2; organization_id = 7; user_id = 10 }
      ∷ record { id = 3; organization_id = 8; user_id = 20 }
      ∷ [];
  grants = shared ∷ [];
}

checks :
    (can_access_document documents grants 30 member 7 2 write start ≡ true)
    × (can_access_document documents grants 31 member 7 2 read start ≡ false)
    × (can_access_document documents grants 31 viewer 7 1 write start ≡ false)
    × (can_access_document documents grants 31 member 7 3 read start ≡ false)
    × (get_accessible_document_ids documents grants 30 viewer 7 read start ≡ some (1 ∷ 2 ∷ []))
    × ((revoke_permission documents grants 7 2 51 31 member start).0
        ≡ err (AppError.forbidden Code.document_access_denied))
    × ((revoke_permission documents grants 7 2 52 10 member start).0
        ≡ err (AppError.not_found Code.permission_not_found))
unfolding can_access_document get_accessible_document_ids revoke_permission
checks = (refl, refl, refl, refl, refl, refl, refl)

accessible-agrees_example :
    (elim (get_accessible_document_ids documents grants 30 viewer 7 read start) [
      | none ↦ true
      | some ids ↦ contains ids 2
    ])
    ≡ can_access_document documents grants 30 viewer 7 2 read start
accessible-agrees_example =
    accessible-agrees documents grants 30 viewer 7 2 read start (omega arith)

abbrev opened : Grant
opened = record {
  id = 52;
  document_id = 2;
  grantee_type = organization;
  grantee_id = none;
  grantee_role = none;
  permission = read;
}

granted :
    (grant_permission documents grants 52 7 2 10 member organization none none none start).0
    ≡ ok opened
unfolding grant_permission
granted = refl

revoked : (revoke_permission documents grants 7 2 51 10 member start).0 ≡ ok tt
unfolding revoke_permission
revoked = refl

access_stays_in_org_example :
    (d : Document) × (first (in_org 2 7) start.documents ≡ some d)
    × (d.id ≡ 2)
    × (d.organization_id ≡ 7)
access_stays_in_org_example =
    access_stays_in_org documents grants 30 member 7 2 write start refl checks.0

-- An administrator of organization 7 opens the document 3, of organization 8.
abbrev foreign : Grant
foreign = record {
  id = 53;
  document_id = 3;
  grantee_type = organization;
  grantee_id = none;
  grantee_role = none;
  permission = write;
}

manager_grants_anywhere_example :
    (grant_permission documents grants 53 7 3 10 admin organization none none (some write) start
      ≡ (ok foreign, record start { grants = shared ∷ foreign ∷ [] }))
    × (list_permissions documents grants 7 3 10 admin start ≡ (ok [], start))
manager_grants_anywhere_example =
    manager_grants_anywhere documents grants 53 7 3 10 admin organization none none write start refl
