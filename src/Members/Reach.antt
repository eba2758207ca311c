-- ===== src/Members/Reach.antt =====
-- Runs of the member service (modules/members/member.service.js): any sequence of its three
-- operations, by any members, one after the other.
use doc_query.Base.{
  ap, length, length-keep-count, ◌⊎◌, refl, ℕ, ◌≡◌, false, not, ◌==◌, count, arith, Option-cases,
  inl, inr,
}
use doc_query.Base.Table.{Table}
use doc_query.Roles.{Role, is_owner}
use doc_query.Members.{State, Actor, set_role, add_member, update_member_role, remove_member}
use doc_query.Base.Keyed.{Distinct-update_where, Distinct-keep, Distinct-snoc}
use doc_query.Members.Rows.{id_of, DistinctIds, User, Membership, of_user, by_id, owns}
use doc_query.Members.Guards.{non_owner_keeps_owners}
use doc_query.Members.Owners.{
  IsGenuine, HasOwner, update_member_role-HasOwner, remove_member-HasOwner, add_member-HasOwner,
}

module _ (users : Table User) (members : Table Membership) where
  -- One request. Who changes a role as an owner is one in the table; other requests come with any
  -- role, as those with a key do, which act as an administrator in the name of the creator of the
  -- key. The identifier of a new row is not in use.
  pub data Step (s : State) : State → Type 0 where
    add :
        (new_id now org email : ℕ) (role : Role)
        → count (by_id new_id) s.members ≡ 0
        → Step s (add_member users members new_id now org email role s).1
    change :
        (org target_user : ℕ) (role : Role) (acting : Actor)
        → (is_owner acting.role ≡ false) ⊎ IsGenuine org acting s
        → Step s (update_member_role users members org target_user role acting s).1
    remove :
        (org target_user : ℕ) (acting : Actor)
        → Step s (remove_member users members org target_user acting s).1

  pub data Reach (s : State) : State → Type 0 where
    here : Reach s s
    next : {t u : State} → Reach s t → Step t u → Reach s u

  add_member-DistinctIds :
      (new_id now org email : ℕ) (role : Role) (s : State)
      → count (by_id new_id) s.members ≡ 0
      → DistinctIds s.members
      → DistinctIds (add_member users members new_id now org email role s).1.members
  unfolding add_member
  add_member-DistinctIds new_id now org email role s fresh d =
      elim (Option-cases (users.find (λ u. u.email == email) s.users)) [
        | inl missing ↦ ground arith
        | inr (u, found) ↦
            let row : Membership = record {
              id = new_id;
              user_id = u.id;
              organization_id = org;
              role = role;
              suspended = false;
              created_at = now;
            } in
            ground (arith, members.create_lem row s.members, Distinct-snoc id_of row s.members)
      ]

  update_member_role-DistinctIds :
      (org target_user : ℕ) (role : Role) (acting : Actor) (s : State)
      → DistinctIds s.members
      → DistinctIds (update_member_role users members org target_user role acting s).1.members
  unfolding update_member_role
  update_member_role-DistinctIds org target_user role acting s d =
      elim (Option-cases (members.find (of_user target_user org) s.members)) [
        | inl missing ↦ ground arith
        | inr (t, found) ↦ ground (
          arith,
          members.update_lem (by_id t.id) (set_role role) s.members,
          Distinct-update_where id_of t.id (set_role role) s.members (λ x. refl) d,
        )
      ]

  remove_member-DistinctIds :
      (org target_user : ℕ) (acting : Actor) (s : State)
      → DistinctIds s.members
      → DistinctIds (remove_member users members org target_user acting s).1.members
  unfolding remove_member
  remove_member-DistinctIds org target_user acting s d =
      elim (Option-cases (members.find (of_user target_user org) s.members)) [
        | inl missing ↦ ground arith
        | inr (t, found) ↦ ground (
          arith,
          members.delete_lem (by_id t.id) s.members,
          Distinct-keep id_of (λ r. not (by_id t.id r)) s.members d,
        )
      ]

  change-HasOwner :
      (o org target_user : ℕ) (role : Role) (acting : Actor) (s : State)
      → (is_owner acting.role ≡ false) ⊎ IsGenuine org acting s
      → DistinctIds s.members
      → HasOwner o s
      → HasOwner o (update_member_role users members org target_user role acting s).1
  change-HasOwner o org target_user role acting s (inl low) d h =
      let after = (update_member_role users members org target_user role acting s).1.members in
      let same = (non_owner_keeps_owners users members org target_user role acting s o d low).0 in
      let counted = ap (λ rows. length rows) same in
      omega
        (arith, h, counted, length-keep-count (owns o) after, length-keep-count (owns o) s.members)
  change-HasOwner o org target_user role acting s (inr g) d h =
      update_member_role-HasOwner users members org target_user role acting s o d g h

  Step-HasOwner :
      (o : ℕ) {s t : State}
      → Step s t
      → DistinctIds s.members
      → HasOwner o s
      → DistinctIds t.members × HasOwner o t
  Step-HasOwner o {s} (add new_id now org email role fresh) d h = (
    add_member-DistinctIds new_id now org email role s fresh d,
    add_member-HasOwner users members new_id now org email role s o h,
  )
  Step-HasOwner o {s} (change org target_user role acting g) d h = (
    update_member_role-DistinctIds org target_user role acting s d,
    change-HasOwner o org target_user role acting s g d h,
  )
  Step-HasOwner o {s} (remove org target_user acting) d h = (
    remove_member-DistinctIds org target_user acting s d,
    remove_member-HasOwner users members org target_user acting s o d h,
  )

  -- From a table whose identifiers are distinct, after any number of requests served one after
  -- the other, of members and of keys, where a change of a role is asked for as an owner only by
  -- someone who is one in the table then: every organization that had an owner still has one, and
  -- the identifiers are still distinct.
  pub Reach-HasOwner :
      (o : ℕ) {s t : State}
      → Reach s t
      → DistinctIds s.members
      → HasOwner o s
      → DistinctIds t.members × HasOwner o t
  Reach-HasOwner o here d h = (d, h)
  Reach-HasOwner o (next r st) d h =
      let (d', h') = Reach-HasOwner o r d h in Step-HasOwner o st d' h'
