-- ===== src/Members/Races.antt =====
-- Two removals at once (modules/members/member.service.js, `removeMember`): the owners are counted
-- before the deletion, with no transaction around the two, so a second request can pass its
-- checks in between.
use doc_query.Base.{ℕ, ◌≡◌, ◌≢◌, not, some, first, count, keep, arith}
use doc_query.Base.Table.{Table}
use doc_query.Base.Errors.{ok}
use doc_query.Roles.{owner}
use doc_query.Members.{State, Actor, check_removal, commit_removal}
use doc_query.Base.Keyed.{first_passes, count-delete, Distinct-keep, first-keep}
use doc_query.Members.Rows.{id_of, DistinctIds, User, Membership, of_user, by_id, owns}

module _ (users : Table User) (members : Table Membership) where
  -- Where two owners ask, each for the removal of the other, and the checks of both run before
  -- either deletion, both checks pass; after both deletions an organization with exactly these
  -- two owners has no owner left.
  pub removals_race :
      (org : ℕ) (a b : Actor) (s : State) (m n : Membership)
      → DistinctIds s.members
      → first (of_user a.user_id org) s.members ≡ some m
      → first (of_user b.user_id org) s.members ≡ some n
      → m.role ≡ owner
      → n.role ≡ owner
      → a.role ≡ owner
      → b.role ≡ owner
      → m.id ≢ n.id
      → count (owns org) s.members ≡ 2
      → let (_, s') = commit_removal users members org b.user_id a n s in
        let (_, s'') = commit_removal users members org a.user_id b m s' in
        (check_removal users members org b.user_id a s ≡ (ok n, s))
        × (check_removal users members org a.user_id b s ≡ (ok m, s))
        × (count (owns org) s''.members ≡ 0)
  unfolding check_removal commit_removal
  removals_race org a b s m n d hm hn m_owns n_owns a_owns b_owns ne two = (
    ground (
      arith,
      members.find_lem (of_user b.user_id org) s.members,
      members.count_lem (owns org) s.members,
    ),
    ground (
      arith,
      members.find_lem (of_user a.user_id org) s.members,
      members.count_lem (owns org) s.members,
    ),
    ground (
      arith,
      members.delete_lem (by_id n.id) s.members,
      members.delete_lem (by_id m.id) (keep (λ r. not (by_id n.id r)) s.members),
      first-keep id_of (of_user a.user_id org) n.id s.members m hm ne,
      Distinct-keep id_of (λ r. not (by_id n.id r)) s.members d,
      count-delete id_of (owns org) (of_user b.user_id org) s.members n d hn,
      count-delete id_of (owns org) (of_user a.user_id org)
          (keep (λ r. not (by_id n.id r)) s.members) m,
      first_passes id_of (of_user a.user_id org) s.members m hm,
      first_passes id_of (of_user b.user_id org) s.members n hn,
    ),
  )
