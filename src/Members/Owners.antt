-- ===== src/Members/Owners.antt =====
-- Every organization keeps an owner (modules/members/member.service.js, the guards that throw
-- `ROLE_LAST_OWNER`, `ROLE_OWNER_PROTECTED` and `ROLE_PROMOTION_DENIED`).
use doc_query.Base.{
  ℕ, ◌≤◌, ◌≡◌, false, ◌==◌, some, [], ◌∷◌, first, count, count-append, arith, Option-cases, inl,
  inr,
}
use doc_query.Base.Table.{Table}
use doc_query.Roles.{Role}
use doc_query.Members.{State, Actor, set_role, add_member, update_member_role, remove_member}
use doc_query.Base.Keyed.{first_passes, count-update_where, count-delete, count-two}
use doc_query.Members.Rows.{id_of, DistinctIds, User, Membership, of_user, by_id, owns}

-- The acting user's role is the one in the table.
abbrev pub IsGenuine : ℕ → Actor → State → Type 0
IsGenuine org acting s =
    (m : Membership) × (first (of_user acting.user_id org) s.members ≡ some m)
    × (m.role ≡ acting.role)

abbrev pub HasOwner : ℕ → State → Type 0
HasOwner org s = 1 ≤ count (owns org) s.members

module _ (users : Table User) (members : Table Membership) where
  update_found :
      (org target_user : ℕ) (role : Role) (acting : Actor) (s : State) (o : ℕ) (t : Membership)
      → first (of_user target_user org) s.members ≡ some t
      → DistinctIds s.members
      → IsGenuine org acting s
      → HasOwner o s
      → HasOwner o (update_member_role users members org target_user role acting s).1
  unfolding update_member_role
  update_found org target_user role acting s o t found d (m, mine, same) h = ground (
    arith,
    members.find_lem (of_user target_user org) s.members,
    members.count_lem (owns org) s.members,
    members.update_lem (by_id t.id) (set_role role) s.members,
    count-update_where id_of (owns o) (of_user target_user org) (set_role role) s.members t d found,
    first_passes id_of (of_user target_user org) s.members t found,
    first_passes id_of (of_user acting.user_id org) s.members m mine,
    count-two id_of (owns o) (of_user target_user org) (of_user acting.user_id org) s.members t m
        found mine,
  )

  -- A change of role by a member whose role is the one in the table leaves an owner in every
  -- organization that has one, whoever the target is and whatever the outcome.
  pub update_member_role-HasOwner :
      (org target_user : ℕ) (role : Role) (acting : Actor) (s : State) (o : ℕ)
      → DistinctIds s.members
      → IsGenuine org acting s
      → HasOwner o s
      → HasOwner o (update_member_role users members org target_user role acting s).1
  unfolding update_member_role
  update_member_role-HasOwner org target_user role acting s o d g h =
      elim (Option-cases (first (of_user target_user org) s.members)) [
        | inl missing ↦ ground (arith, members.find_lem (of_user target_user org) s.members)
        | inr (t, found) ↦ update_found org target_user role acting s o t found d g h
      ]

  -- So does a removal, by anyone.
  pub remove_member-HasOwner :
      (org target_user : ℕ) (acting : Actor) (s : State) (o : ℕ)
      → DistinctIds s.members
      → HasOwner o s
      → HasOwner o (remove_member users members org target_user acting s).1
  unfolding remove_member
  remove_member-HasOwner org target_user acting s o d h =
      elim (Option-cases (first (of_user target_user org) s.members)) [
        | inl missing ↦ ground (arith, members.find_lem (of_user target_user org) s.members)
        | inr (t, found) ↦ ground (
          arith,
          members.find_lem (of_user target_user org) s.members,
          members.count_lem (owns org) s.members,
          members.delete_lem (by_id t.id) s.members,
          count-delete id_of (owns o) (of_user target_user org) s.members t d found,
          first_passes id_of (of_user target_user org) s.members t found,
        )
      ]

  pub add_member-HasOwner :
      (new_id now org email : ℕ) (role : Role) (s : State) (o : ℕ)
      → HasOwner o s
      → HasOwner o (add_member users members new_id now org email role s).1
  unfolding add_member
  add_member-HasOwner new_id now org email role s o h =
      elim (Option-cases (users.find (λ u. u.email == email) s.users)) [
        | inl missing ↦ ground arith
        | inr (u, found) ↦
            let row : Membership = record {
              id = new_id;
              user_id = u.id;
              organization_id = org;
              role = role;
              suspended = false;
              created_at = now;
            } in
            ground
              (arith, members.create_lem row s.members, count-append (owns o) s.members (row ∷ []))
      ]
