-- ===== src/Organizations.antt =====
-- modules/organizations/organization.service.js with delPattern of services/redis.service.js: the
-- organizations of a user, in front of which stands a cache. Audit jobs and the names of users are
-- left out.
pub mod Keys
pub mod Coherent
pub mod Created
pub mod Transparent
pub mod Controller
mod Tests
use doc_query.Base.{
  ℕ, ◌≡◌, ◌==◌, ◌+◌, ◌-◌, ◌*◌, ◌&&◌, Bool, true, false, Option, none, some, List, [], ◌∷◌, ◌++◌,
  map, first, count, take, drop, length, if◌then◌else◌,
}
use doc_query.Base.Errors.{AppError, forbidden, org_access_denied}
use doc_query.Base.Table.{Table}
use doc_query.Members.Rows.{Membership, of_user}
use doc_query.Pagination.{
  Value, num, Query, OffsetPagination, parse_pagination_params, build_offset_pagination,
}
use doc_query.Redis.{Scanner, build_key, read_through, del_pattern}
use doc_query.Roles.{Role, owner}
use doc_query.Text.{codes, starts_with}

pub record Organization : Type 0 where
  pub id : ℕ
  pub name : List ℕ
  pub created_at : ℕ

-- `{ ...membership.organization, role, joinedAt }`
pub record View : Type 0 where
  pub organization : Option Organization
  pub role : Role
  pub joined_at : ℕ

pub record Listing : Type 0 where
  pub organizations : List View
  pub pagination : OffsetPagination

-- What the cache holds.
pub data Cached : Type 0 where
  one : View → Cached
  page : Listing → Cached

-- Identifiers of rows: the text of one, and a new one, which no row refers to.
pub record Ids : Type 0 where
  pub uuid_text : ℕ → List ℕ
  pub new_organization : List Membership → ℕ
  pub new_member : List Membership → ℕ
  pub length-uuid_text : (n : ℕ) → length (uuid_text n) ≡ 36
  pub uuid_text_inj : (n m : ℕ) → uuid_text n ≡ uuid_text m → n ≡ m
  pub new_organization-fresh :
      (ms : List Membership) → count (λ m. m.organization_id == new_organization ms) ms ≡ 0

pub record Tables : Type 0 where
  pub organizations : List Organization
  pub members : List Membership

-- The packages: tables, identifiers, the order by `createdAt`, which keeps every row, and `parseInt`.
pub record Packages : Type 0 where
  pub organizations : Table Organization
  pub members : Table Membership
  pub ids : Ids
  pub oldest_first : List Membership → List Membership
  pub count-oldest_first :
      (q : Membership → Bool) (ms : List Membership) → count q (oldest_first ms) ≡ count q ms
  pub parse_int : List ℕ → Value

abbrev pub cache_ttl : ℕ
cache_ttl = 300

abbrev pub with_id : ℕ → Organization → Bool
with_id k o = o.id == k

abbrev pub of_member : ℕ → Membership → Bool
of_member user m = m.user_id == user

-- `include: { organization }`
abbrev pub view : List Organization → Membership → View
view orgs m = record {
  organization = first (with_id m.organization_id) orgs;
  role = m.role;
  joined_at = m.created_at;
}

abbrev pub is_first_page : Value → ℕ → Bool
is_first_page (num p) limit = (p == 1) && (limit == 20)
is_first_page _ limit = false

module _ (pk : Packages) where
  -- `orgCacheKey`
  abbrev pub org_cache_key : ℕ → List ℕ → List ℕ
  org_cache_key user suffix =
      build_key (codes "cache" ∷ codes "org" ∷ pk.ids.uuid_text user ∷ suffix ∷ [])

  abbrev pub new_organization : List ℕ → ℕ → Tables → Organization
  new_organization name now t = record {
    id = pk.ids.new_organization t.members;
    name = name;
    created_at = now;
  }

  abbrev pub first_owner : ℕ → ℕ → Tables → Membership
  first_owner user now t = record {
    id = pk.ids.new_member t.members;
    user_id = user;
    organization_id = pk.ids.new_organization t.members;
    role = owner;
    suspended = false;
    created_at = now;
  }

  -- The transaction of `create`.
  abbrev pub create_rows : List ℕ → ℕ → ℕ → Tables → Tables
  create_rows name user now t = record {
    organizations = pk.organizations.create (new_organization name now t) t.organizations;
    members = pk.members.create (first_owner user now t) t.members;
  }

  -- The database part of `listForUser`; a page that is no number is refused by the database.
  abbrev pub listing : ℕ → Value → ℕ → Tables → Option Cached
  listing user (num p) limit t =
      let rows = pk.oldest_first (pk.members.find_many (of_member user) t.members) in
      let total = pk.members.count_where (of_member user) t.members in
      some (
        page (record {
          organizations = map (view t.organizations) (take limit (drop ((p - 1) * limit) rows));
          pagination = build_offset_pagination (num total) (num p) (num limit);
        }))
  listing user _ limit t = none

  -- The database part of `getById`.
  abbrev pub viewed : Option Membership → Tables → Option Cached
  viewed none t = none
  viewed (some m) t = some (one (view t.organizations m))

  abbrev pub organization_view : ℕ → ℕ → Tables → Option Cached
  organization_view org user t = viewed (pk.members.find (of_user user org) t.members) t

  module _ {C : Type 0} (cache : Scanner C Cached) where
    -- `create`, with `invalidateOrgCache`
    pub create : List ℕ → ℕ → ℕ → Tables → C → Organization × Tables × C
    unfolding del_pattern
    create name user now t c = (
      new_organization name now t,
      create_rows name user now t,
      del_pattern cache (org_cache_key user []) c,
    )

    abbrev pub paged : ℕ → Value → ℕ → Tables → C → Option Cached × C
    paged user p limit t c =
        let fetched = listing user p limit t in
        if is_first_page p limit
        then read_through cache.client (org_cache_key user (codes "list")) cache_ttl fetched c
        else (fetched, c)

    -- `listForUser`: none where the database refuses.
    pub list_for_user : ℕ → Query → Tables → C → Option Cached × C
    list_for_user user q t c =
        let params = parse_pagination_params pk.parse_int q in
        paged user params.page params.limit t c

    -- `getById`: none where it throws ORG_ACCESS_DENIED.
    pub get_by_id : ℕ → ℕ → Tables → C → Option Cached × C
    get_by_id org user t c =
        read_through cache.client (org_cache_key user (pk.ids.uuid_text org)) cache_ttl
          (organization_view org user t) c
