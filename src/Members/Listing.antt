-- ===== src/Members/Listing.antt =====
-- listMembers of modules/members/member.service.js: the members of an organization page by page, the
-- first page through a cache.
use doc_query.Base.{
  ℕ, zero, suc, ◌≡◌, refl, ap, sym, ◌∙◌, ◌==◌, ◌+◌, ◌-◌, ◌*◌, ◌&&◌, Bool, false, Option, none, some,
  List, [], ◌∷◌, ◌++◌, map, take, drop, arith, if◌then◌else◌,
}
use doc_query.Base.Table.{Table}
use doc_query.Members.Rows.{User, Membership}
use doc_query.Pagination.{
  Value, num, Query, OffsetPagination, parse_pagination_params, build_offset_pagination,
}
use doc_query.Redis.{Client, build_key, read_through}
use doc_query.Roles.{Role}
use doc_query.Text.{codes}

-- A member with the columns of the user, if the row is there.
pub record MemberView : Type 0 where
  pub id : ℕ
  pub user : Option User
  pub role : Role
  pub joined_at : ℕ

pub record MemberPage : Type 0 where
  pub members : List MemberView
  pub pagination : OffsetPagination

abbrev of_organization : ℕ → Membership → Bool
of_organization org m = m.organization_id == org

abbrev is_first_page : Value → ℕ → Bool
is_first_page (num p) limit = (p == 1) && (limit == 20)
is_first_page _ limit = false

take-none : {A : Type 0} (n : ℕ) → take {A = A} n [] ≡ []
take-none zero = refl
take-none (suc n) = refl

take-plus : {A : Type 0} (a b : ℕ) (xs : List A) → take (a + b) xs ≡ take a xs ++ take b (drop a xs)
take-plus zero b xs = let e : 0 + b ≡ b = omega arith in ap (λ n. take n xs) e
take-plus (suc a) b [] = take-none (suc a + b) ∙ sym (take-none b)
take-plus (suc a) b (x ∷ xs) =
    let e : suc a + b ≡ suc (a + b) = omega arith in
    ap (λ n. take n (x ∷ xs)) e ∙ ap (λ r. x ∷ r) (take-plus a b xs)

map-append : {A B : Type 0} (f : A → B) (xs ys : List A) → map f (xs ++ ys) ≡ map f xs ++ map f ys
map-append f [] ys = refl
map-append f (x ∷ xs) ys = ap (λ r. f x ∷ r) (map-append f xs ys)

module _ (users : Table User) (members : Table Membership)
    (oldest_first : List Membership → List Membership) (us : List User) (ms : List Membership) where
  abbrev pub member_view : Membership → MemberView
  member_view m = record {
    id = m.id;
    user = users.find (λ u. u.id == m.user_id) us;
    role = m.role;
    joined_at = m.created_at;
  }

  abbrev pub in_order : ℕ → List Membership
  in_order org = oldest_first (members.find_many (of_organization org) ms)

  -- The database part; a page that is no number is refused by the database.
  abbrev pub member_page : ℕ → Value → ℕ → Option MemberPage
  member_page org (num p) limit = some (record {
    members = map member_view (take limit (drop ((p - 1) * limit) (in_order org)));
    pagination =
        build_offset_pagination (num (members.count_where (of_organization org) ms)) (num p)
          (num limit);
  })
  member_page org _ limit = none

  -- `listMembers`
  pub list_members :
      {C : Type 0}
      → Client C MemberPage
      → (ℕ → List ℕ)
      → (List ℕ → Value)
      → ℕ
      → Query
      → C
      → Option MemberPage × C
  list_members client uuid_text parse_int org q c =
      let params = parse_pagination_params parse_int q in
      let fetched = member_page org params.page params.limit in
      if is_first_page params.page params.limit
      then read_through client
          (build_key (codes "cache" ∷ codes "members" ∷ uuid_text org ∷ codes "list" ∷ [])) 300
          fetched c
      else (fetched, c)

  abbrev members_of : Option MemberPage → List MemberView
  members_of none = []
  members_of (some p) = p.members

  -- The members of the pages from 1 to `n`, one after the other.
  abbrev pub pages : ℕ → ℕ → ℕ → List MemberView
  pages org limit zero = []
  pages org limit (suc n) = pages org limit n ++ members_of (member_page org (num (n + 1)) limit)

  -- The pages follow each other without a gap or an overlap: the first `n` of them hold the first
  -- members, as many as fit on them.
  pub pages-take :
      (org limit n : ℕ) → pages org limit n ≡ map member_view (take (n * limit) (in_order org))
  pages-take org limit zero =
      let e : 0 * limit ≡ 0 = omega arith in
      sym (ap (λ k. map member_view (take k (in_order org))) e)
  pages-take org limit (suc n) =
      let xs = in_order org in
      let from : (n + 1 - 1) * limit ≡ n * limit = ap (λ k. k * limit) (omega arith) in
      let to : n * limit + limit ≡ suc n * limit = ground arith in
      ap (λ r. r ++ map member_view (take limit (drop ((n + 1 - 1) * limit) xs)))
        (pages-take org limit n)
      ∙ ap (λ k. map member_view (take (n * limit) xs) ++ map member_view (take limit (drop k xs)))
          from
      ∙ sym (map-append member_view (take (n * limit) xs) (take limit (drop (n * limit) xs)))
      ∙ sym (ap (map member_view) (take-plus (n * limit) limit xs))
      ∙ ap (λ k. map member_view (take k xs)) to
