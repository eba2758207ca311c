-- ===== src/Permissions/Tests.antt =====
-- Entries of the table of permissions.
use doc_query.Base.{◌≡◌, refl, true, false, []}
use doc_query.Text.{codes, text_eq}
use doc_query.Roles.{owner, admin, member, viewer}
use doc_query.Permissions.{has_permission, organization_delete}

entries :
    (has_permission viewer (codes "DOCUMENT_READ") ≡ true)
    × (has_permission viewer (codes "DOCUMENT_CREATE") ≡ false)
    × (has_permission member (codes "MEMBER_UPDATE") ≡ false)
    × (has_permission admin organization_delete ≡ false)
    × (has_permission owner [] ≡ false)
unfolding has_permission text_eq
entries = (refl, refl, refl, refl, refl)

viewer_reads : has_permission viewer (codes "DOCUMENT_READ") ≡ true
unfolding has_permission text_eq
viewer_reads = refl
