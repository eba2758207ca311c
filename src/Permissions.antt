-- ===== src/Permissions.antt =====
-- config/permissions.config.js: the permissions of each role. A permission is its text.
mod Tests
use Prim.Native.String.{String}
use doc_query.Base.{
  ℕ, zero, suc, ◌≤◌, ◌≡◌, ◌↔◌, refl, Bool, true, false, not, ◌&&◌, ◌||◌, List, [], ◌∷◌, map, any,
  keep, arith, subst, Bool-cases, inl, inr,
}
use doc_query.Text.{codes, text_eq, text_eq_iff, includes}
use doc_query.Roles.{Role, owner, admin, member, viewer}

-- `ALL_PERMISSIONS`
abbrev pub all_permissions : List (List ℕ)
all_permissions = map codes (
    "ORGANIZATION_READ" ∷ "ORGANIZATION_UPDATE" ∷ "ORGANIZATION_DELETE" ∷ "MEMBER_READ"
    ∷ "MEMBER_INVITE" ∷ "MEMBER_UPDATE" ∷ "MEMBER_REMOVE" ∷ "DOCUMENT_READ" ∷ "DOCUMENT_CREATE"
    ∷ "DOCUMENT_UPDATE" ∷ "DOCUMENT_DELETE" ∷ "DOCUMENT_SHARE" ∷ "CONVERSATION_READ"
    ∷ "CONVERSATION_CREATE" ∷ "CONVERSATION_DELETE" ∷ "QUERY_EXECUTE" ∷ "SEARCH_EXECUTE"
    ∷ "API_KEY_READ" ∷ "API_KEY_CREATE" ∷ "API_KEY_REVOKE" ∷ "AUDIT_READ" ∷ "USAGE_READ"
    ∷ "QUOTA_MANAGE" ∷ "GRAPH_READ" ∷ "GRAPH_MANAGE" ∷ "EVALUATION_READ" ∷ "EVALUATION_MANAGE" ∷ [])

abbrev pub organization_delete : List ℕ
organization_delete = codes "ORGANIZATION_DELETE"

-- `ROLE_PERMISSIONS`
pub role_permissions : Role → List (List ℕ)
role_permissions owner = all_permissions
role_permissions admin = keep (λ p. not (text_eq p organization_delete)) all_permissions
role_permissions member = map codes (
    "ORGANIZATION_READ" ∷ "MEMBER_READ" ∷ "DOCUMENT_READ" ∷ "DOCUMENT_CREATE" ∷ "DOCUMENT_UPDATE"
    ∷ "DOCUMENT_DELETE" ∷ "DOCUMENT_SHARE" ∷ "CONVERSATION_READ" ∷ "CONVERSATION_CREATE"
    ∷ "CONVERSATION_DELETE" ∷ "QUERY_EXECUTE" ∷ "SEARCH_EXECUTE" ∷ "GRAPH_READ" ∷ "EVALUATION_READ"
    ∷ "USAGE_READ" ∷ [])
role_permissions viewer = map codes (
    "ORGANIZATION_READ" ∷ "MEMBER_READ" ∷ "DOCUMENT_READ" ∷ "CONVERSATION_READ" ∷ "QUERY_EXECUTE"
    ∷ "SEARCH_EXECUTE" ∷ "GRAPH_READ" ∷ "EVALUATION_READ" ∷ [])

-- `hasPermission`; an empty permission is refused.
unfoldable pub has_permission : Role → List ℕ → Bool
unfolding role_permissions
has_permission r [] = false
has_permission r (c ∷ p) = includes (role_permissions r) (c ∷ p)

abbrev pub rank : Role → ℕ
rank viewer = 0
rank member = 1
rank admin = 2
rank owner = 3

all_included : List (List ℕ) → List (List ℕ) → Bool
all_included [] ys = true
all_included (x ∷ xs) ys = includes ys x && all_included xs ys

includes_mono :
    (xs ys : List (List ℕ)) (p : List ℕ)
    → all_included xs ys ≡ true
    → includes xs p ≡ true
    → includes ys p ≡ true
unfolding all_included
includes_mono [] ys p h e = ground arith
includes_mono (x ∷ xs) ys p h e = elim (Bool-cases (text_eq x p)) [
  | inl same ↦ subst (λ q. includes ys q ≡ true) ((text_eq_iff x p).0 same) (ground arith)
  | inr other ↦ includes_mono xs ys p (ground arith) (ground arith)
]

includes-next :
    (lo hi : Role) (p : List ℕ)
    → all_included (role_permissions lo) (role_permissions hi) ≡ true
    → has_permission lo p ≡ true
    → has_permission hi p ≡ true
unfolding has_permission
includes-next lo hi [] h e = e
includes-next lo hi (c ∷ p) h e =
    includes_mono (role_permissions lo) (role_permissions hi) (c ∷ p) h e

ladder_table :
    (all_included (role_permissions viewer) (role_permissions member) ≡ true)
    × (all_included (role_permissions member) (role_permissions admin) ≡ true)
    × (all_included (role_permissions admin) (role_permissions owner) ≡ true)
unfolding all_included role_permissions text_eq
ladder_table = (refl, refl, refl)

-- The roles form a ladder, from viewer over member and administrator to owner: what a role may do,
-- whatever the permission, every higher role may do.
pub has_permission_mono :
    (lo hi : Role) (p : List ℕ)
    → rank lo ≤ rank hi
    → has_permission lo p ≡ true
    → has_permission hi p ≡ true
has_permission_mono lo hi p h e = ground (
  arith,
  includes-next viewer member p ladder_table.0,
  includes-next member admin p ladder_table.1,
  includes-next admin owner p ladder_table.2,
)

includes-keep :
    (xs : List (List ℕ)) (q p : List ℕ)
    → includes (keep (λ x. not (text_eq x q)) xs) p ≡ (includes xs p && not (text_eq p q))
includes-keep [] q p = refl
includes-keep (x ∷ xs) q p = elim (Bool-cases (text_eq x p)) [
  | inl same ↦
      subst
        (λ r.
          includes (keep (λ y. not (text_eq y q)) (x ∷ xs)) r
          ≡ (includes (x ∷ xs) r && not (text_eq r q)))
        ((text_eq_iff x p).0 same) (ground (arith, text_eq_iff x x, includes-keep xs q x))
  | inr other ↦ ground (arith, includes-keep xs q p)
]

-- An administrator may do exactly what an owner may do, but delete the organization.
pub admin-permissions :
    (p : List ℕ)
    → has_permission admin p ≡ (has_permission owner p && not (text_eq p organization_delete))
unfolding has_permission
admin-permissions [] = refl
admin-permissions (c ∷ p) = includes-keep all_permissions organization_delete (c ∷ p)
