-- ===== src/Members/Guards.antt =====
-- Who may change what, and what a change leaves alone (modules/members/member.service.js).
use doc_query.Base.{ℕ, ◌≡◌, false, first, keep, arith, Option-cases, inl, inr}
use doc_query.Base.Table.{Table}
use doc_query.Base.Errors.{Result, ok, err}
use doc_query.Roles.{Role, is_owner}
use doc_query.Members.{State, Actor, set_role, add_member, update_member_role, remove_member}
use doc_query.Base.Keyed.{keep-update_where, keep-delete}
use doc_query.Members.Rows.{id_of, DistinctIds, User, Membership, of_user, by_id, owns}

-- A thrown error came with the state as it was.
abbrev pub UnlessThrown : {A : Type 0} → State → Result A × State → Type 0
UnlessThrown s (ok _, s') = Unit
UnlessThrown s (err _, s') = s' ≡ s

module _ (users : Table User) (members : Table Membership) where
  -- A member who is not an owner makes nobody an owner and takes ownership from nobody: under
  -- any request of theirs, whatever its outcome, the owners of every organization stay the same
  -- rows in the same order.
  pub non_owner_keeps_owners :
      (org target_user : ℕ) (role : Role) (acting : Actor) (s : State) (o : ℕ)
      → DistinctIds s.members
      → is_owner acting.role ≡ false
      → (keep (owns o) (update_member_role users members org target_user role acting s).1.members
          ≡ keep (owns o) s.members)
        × (keep (owns o) (remove_member users members org target_user acting s).1.members
            ≡ keep (owns o) s.members)
  unfolding update_member_role remove_member
  non_owner_keeps_owners org target_user role acting s o d low =
      elim (Option-cases (first (of_user target_user org) s.members)) [
        | inl missing ↦ (
          ground (arith, members.find_lem (of_user target_user org) s.members),
          ground (arith, members.find_lem (of_user target_user org) s.members),
        )
        | inr (t, found) ↦ (
          ground (
            arith,
            members.find_lem (of_user target_user org) s.members,
            members.update_lem (by_id t.id) (set_role role) s.members,
            keep-update_where id_of (owns o) (of_user target_user org) (set_role role) s.members t d
                found,
          ),
          ground (
            arith,
            members.find_lem (of_user target_user org) s.members,
            members.delete_lem (by_id t.id) s.members,
            keep-delete id_of (owns o) (of_user target_user org) s.members t d found,
          ),
        )
      ]

  -- A request that throws leaves the users, the members and the effects as they were: no cache
  -- is dropped and no job is enqueued for it.
  pub throw_changes_nothing :
      (new_id now org email target_user : ℕ) (role : Role) (acting : Actor) (s : State)
      → UnlessThrown s (add_member users members new_id now org email role s)
        × UnlessThrown s (update_member_role users members org target_user role acting s)
        × UnlessThrown s (remove_member users members org target_user acting s)
  unfolding add_member update_member_role remove_member
  throw_changes_nothing new_id now org email target_user role acting s =
      (ground arith, ground arith, ground arith)
