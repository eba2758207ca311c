-- ===== src/Members/Tests.antt =====
-- Runs of the member service on a small table, and the theorems about it at such inputs.
use doc_query.Base.{inr, ℕ, ◌≡◌, refl, false, [], ◌∷◌, keep, count, arith}
use doc_query.Base.Table.{Table, in_memory}
use doc_query.Base.Errors.{Code, AppError, ok, err}
use doc_query.Roles.{Role, owner, admin, member}
use doc_query.Members.{
  State, Actor, add_member, update_member_role, remove_member, check_removal, commit_removal,
}
use doc_query.Members.Rows.{DistinctIds, User, Membership, owns}
use doc_query.Members.Owners.{
  IsGenuine, HasOwner, update_member_role-HasOwner, remove_member-HasOwner,
}
use doc_query.Members.Guards.{non_owner_keeps_owners}
use doc_query.Members.Reach.{Step, Reach, Reach-HasOwner}
use doc_query.Members.Races.{removals_race}

abbrev users : Table User
users = in_memory

abbrev members : Table Membership
members = in_memory

abbrev row : ℕ → ℕ → Role → Membership
row id user role = record {
  id = id;
  user_id = user;
  organization_id = 7;
  role = role;
  suspended = false;
  created_at = id;
}

-- Two owners (users 1 and 2), an administrator (3) and a user who is no member (4).
abbrev start : State
start = record {
  users = record { id = 1; email = 11; name = 21 } ∷ record { id = 4; email = 14; name = 24 } ∷ [];
  members = row 101 1 owner ∷ row 102 2 owner ∷ row 103 3 admin ∷ [];
  effects = [];
}

abbrev ann : Actor
ann = record { user_id = 1; role = owner }

abbrev bob : Actor
bob = record { user_id = 2; role = owner }

abbrev cyd : Actor
cyd = record { user_id = 3; role = admin }

abbrev alone : State
alone = record start { members = row 101 1 owner ∷ row 103 3 admin ∷ [] }

outcomes :
    ((remove_member users members 7 2 cyd start).0
      ≡ err (AppError.forbidden Code.role_owner_protected))
    × ((remove_member users members 7 1 ann alone).0
        ≡ err (AppError.bad_request Code.role_last_owner))
    × ((update_member_role users members 7 1 member ann alone).0
        ≡ err (AppError.bad_request Code.role_last_owner))
    × ((update_member_role users members 7 3 owner cyd start).0
        ≡ err (AppError.forbidden Code.role_promotion_denied))
    × ((add_member users members 104 104 7 11 member start).0
        ≡ err (AppError.conflict Code.member_already_exists))
    × ((remove_member users members 7 2 ann start).0 ≡ ok tt)
unfolding remove_member update_member_role add_member
outcomes = (refl, refl, refl, refl, refl, refl)

start-DistinctIds : DistinctIds start.members
start-DistinctIds = omega arith

ann-IsGenuine : IsGenuine 7 ann start
ann-IsGenuine = (row 101 1 owner, refl, refl)

update_member_role-HasOwner_example :
    HasOwner 7 (update_member_role users members 7 2 member ann start).1
update_member_role-HasOwner_example =
    update_member_role-HasOwner users members 7 2 member ann start 7 start-DistinctIds ann-IsGenuine
      (omega arith)

remove_member-HasOwner_example : HasOwner 7 (remove_member users members 7 2 ann start).1
remove_member-HasOwner_example =
    remove_member-HasOwner users members 7 2 ann start 7 start-DistinctIds (omega arith)

-- One owner demotes the other, and is then the last and cannot go.
abbrev demoted : State
demoted = (update_member_role users members 7 2 member ann start).1

Reach-HasOwner_example :
    DistinctIds (remove_member users members 7 1 ann demoted).1.members
    × HasOwner 7 (remove_member users members 7 1 ann demoted).1
Reach-HasOwner_example =
    Reach-HasOwner users members 7
      (Reach.next (Reach.next Reach.here (Step.change 7 2 member ann (inr ann-IsGenuine)))
        (Step.remove 7 1 ann))
      start-DistinctIds (omega arith)

non_owner_keeps_owners_example :
    (keep (owns 7) (update_member_role users members 7 3 member cyd start).1.members
      ≡ keep (owns 7) start.members)
    × (keep (owns 7) (remove_member users members 7 3 cyd start).1.members
        ≡ keep (owns 7) start.members)
non_owner_keeps_owners_example =
    non_owner_keeps_owners users members 7 3 member cyd start 7 start-DistinctIds refl

removals_race_example :
    let (_, s') = commit_removal users members 7 2 ann (row 102 2 owner) start in
    let (_, s'') = commit_removal users members 7 1 bob (row 101 1 owner) s' in
    (check_removal users members 7 2 ann start ≡ (ok (row 102 2 owner), start))
    × (check_removal users members 7 1 bob start ≡ (ok (row 101 1 owner), start))
    × (count (owns 7) s''.members ≡ 0)
removals_race_example =
    removals_race users members 7 ann bob start (row 101 1 owner) (row 102 2 owner)
      start-DistinctIds refl refl refl refl refl refl (omega arith) refl
