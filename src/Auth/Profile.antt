-- ===== src/Auth/Profile.antt =====
-- getCurrentUser of modules/auth/auth.service.js: the profile of a user, through a cache. The times of
-- rows are left out.
use doc_query.Base.{ℕ, ◌≡◌, ◌==◌, Bool, true, Option, none, some, List, [], ◌∷◌, map}
use doc_query.Auth.{SafeUser, to_safe_user}
use doc_query.Auth.Rows.{User, Organization, Membership, State, by_user_id}
use doc_query.Base.Table.{Table}
use doc_query.Redis.{Client, build_key, read_through}
use doc_query.Redis.Through.{read_through-again}
use doc_query.Roles.{Role}
use doc_query.Text.{codes}

-- One of the organizations of a profile: the row, if it is there, and the role in it.
pub record ProfileOrganization : Type 0 where
  pub organization : Option Organization
  pub role : Role

pub record Profile : Type 0 where
  pub user : SafeUser
  pub organizations : List ProfileOrganization

abbrev of_user : ℕ → Membership → Bool
of_user id m = m.user_id == id

module _ (uuid_text : ℕ → List ℕ) (users : Table User) (organizations : Table Organization)
    (members : Table Membership) where
  abbrev pub profile_organization : State → Membership → ProfileOrganization
  profile_organization s m = record {
    organization = organizations.find (λ o. o.id == m.organization_id) s.organizations;
    role = m.role;
  }

  -- What the database gives: none is USER_NOT_FOUND.
  abbrev pub found_profile : ℕ → State → Option User → Option Profile
  found_profile id s none = none
  found_profile id s (some u) = some (record {
    user = to_safe_user u;
    organizations = map (profile_organization s) (members.find_many (of_user id) s.members);
  })

  abbrev pub stored_profile : ℕ → State → Option Profile
  stored_profile id s = found_profile id s (users.find (by_user_id id) s.users)

  abbrev pub profile_key : ℕ → List ℕ
  profile_key id = build_key (codes "cache" ∷ codes "user" ∷ uuid_text id ∷ codes "me" ∷ [])

  module _ {C : Type 0} (client : Client C Profile) where
    -- `getCurrentUser`: none is USER_NOT_FOUND.
    unfoldable pub get_current_user : ℕ → State → C → Option Profile × C
    get_current_user id s c = read_through client (profile_key id) 300 (stored_profile id s) c

    -- Once the profile of a user was given, and while it has not expired, the same profile is given
    -- whatever has become of the user, the memberships and the organizations since.
    pub get_current_user-stale :
        (id : ℕ) (s s' : State) (p : Profile) (c : C)
        → client.ready c ≡ true
        → (get_current_user id s c).0 ≡ some p
        → (get_current_user id s' (get_current_user id s c).1).0 ≡ some p
    unfolding get_current_user
    get_current_user-stale id s s' p c up h =
        read_through-again client 300 (profile_key id) (stored_profile id s) (stored_profile id s')
          c p up h
