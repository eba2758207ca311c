-- ===== src/Members.antt =====
-- modules/members/member.service.js: adding, promoting and removing the members of an
-- organization. The caches that a change drops and the jobs that it enqueues are recorded, in the
-- order of the calls, as a list of effects.
pub mod Listing
pub mod Rows
pub mod Guards
pub mod Owners
pub mod Reach
pub mod Races
mod Tests
use doc_query.Base.{ℕ, false, not, ◌&&◌, ◌==◌, leb, present, Option, List, [], ◌∷◌, ◌++◌}
use doc_query.Base.Table.{Table}
use doc_query.Base.Errors.{
  Code, AppError, Action, pure, throw_if, gets, or_throw, modify, ◌>>=◌, ◌>>◌,
}
use doc_query.Roles.{Role, is_owner}
use Rows.{User, Membership, of_user, by_id, owns}

-- What the service sends to Redis and to the job queues.
pub data Effect : Type 0 where
  drop_member_cache : ℕ → Effect
  drop_org_cache : ℕ → Effect
  audit_added : ℕ → ℕ → Role → Effect
  audit_role_updated : ℕ → ℕ → ℕ → Role → Role → Effect
  audit_removed : ℕ → ℕ → ℕ → Role → Effect
  notify_invited : ℕ → ℕ → Role → Effect

pub record State : Type 0 where
  pub users : List User
  pub members : List Membership
  pub effects : List Effect

-- The acting user's membership, as the middleware attached it to the request.
pub record Actor : Type 0 where
  pub user_id : ℕ
  pub role : Role

-- A membership joined with its user; the foreign key makes the user present.
pub record MemberView : Type 0 where
  pub membership : Membership
  pub user : Option User

abbrev emit : List Effect → Action State (Unit {0})
emit es = modify λ s. record s { effects = s.effects ++ es }

-- `data: { role }`
abbrev pub set_role : Role → Membership → Membership
set_role r m = record m { role = r }

module _ (users : Table User) (members : Table Membership) where
  abbrev view : Membership → State → MemberView
  view m s = record { membership = m; user = users.find (λ u. u.id == m.user_id) s.users }

  -- `addMember`. The database chooses the new row's `id`, and `now` is its `createdAt`.
  pub add_member : ℕ → ℕ → ℕ → ℕ → Role → Action State MemberView
  add_member new_id now org email role = do
    found ← gets (λ s. users.find (λ u. u.email == email) s.users)
    target ← or_throw found (AppError.not_found Code.user_not_found)
    existing ← gets (λ s. members.find (of_user target.id org) s.members)
    throw_if (present existing) (AppError.conflict Code.member_already_exists)
    let row : Membership = record {
      id = new_id;
      user_id = target.id;
      organization_id = org;
      role = role;
      suspended = false;
      created_at = now;
    }
    modify (λ s. record s { members = members.create row s.members })
    emit (
        drop_member_cache org
        ∷ drop_org_cache target.id
        ∷ audit_added target.id org role
        ∷ notify_invited target.id org role
        ∷ [])
    gets (view row)

  -- `updateMemberRole`
  pub update_member_role : ℕ → ℕ → Role → Actor → Action State MemberView
  update_member_role org target_user role acting = do
    found ← gets (λ s. members.find (of_user target_user org) s.members)
    target ← or_throw found (AppError.not_found Code.member_not_found)
    throw_if (is_owner target.role && not (is_owner acting.role))
        (AppError.forbidden Code.role_owner_protected)
    throw_if (is_owner role && not (is_owner acting.role))
        (AppError.forbidden Code.role_promotion_denied)
    owners ← gets (λ s. members.count_where (owns org) s.members)
    throw_if
        ((target_user == acting.user_id && is_owner target.role)
          && (leb owners 1 && not (is_owner role)))
        (AppError.bad_request Code.role_last_owner)
    modify (λ s. record s { members = members.update (by_id target.id) (set_role role) s.members })
    emit (
        drop_member_cache org
        ∷ drop_org_cache target_user
        ∷ audit_role_updated acting.user_id org target_user target.role role
        ∷ [])
    gets (view (set_role role target))

  -- The first part of `removeMember`, up to the last check.
  pub check_removal : ℕ → ℕ → Actor → Action State Membership
  check_removal org target_user acting = do
    found ← gets (λ s. members.find (of_user target_user org) s.members)
    target ← or_throw found (AppError.not_found Code.member_not_found)
    throw_if (is_owner target.role && not (is_owner acting.role))
        (AppError.forbidden Code.role_owner_protected)
    owners ← gets (λ s. members.count_where (owns org) s.members)
    throw_if (is_owner target.role && leb owners 1) (AppError.bad_request Code.role_last_owner)
    pure target

  -- The rest of `removeMember`: the deletion and what follows it.
  pub commit_removal : ℕ → ℕ → Actor → Membership → Action State (Unit {0})
  commit_removal org target_user acting target = do
    modify (λ s. record s { members = members.delete (by_id target.id) s.members })
    emit (
        drop_member_cache org
        ∷ drop_org_cache target_user
        ∷ audit_removed acting.user_id org target_user target.role
        ∷ [])

  pub remove_member : ℕ → ℕ → Actor → Action State (Unit {0})
  unfolding check_removal commit_removal
  remove_member org target_user acting = do
    target ← check_removal org target_user acting
    commit_removal org target_user acting target
