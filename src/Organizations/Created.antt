-- ===== src/Organizations/Created.antt =====
-- What the creation of an organization changes for its creator and for everyone else
-- (modules/organizations/organization.service.js).
use doc_query.Base.{
  ℕ, zero, suc, ◌≡◌, ◌-◌, ◌*◌, refl, sym, ap, subst, ◌∙◌, ◌==◌, ==_iff, Bool, true, false,
  Bool-cases, inl, inr, Option-cases, none, some, List, [], ◌∷◌, ◌++◌, map, first, keep, count,
  arith, count-append, take, drop,
}
use doc_query.Members.Rows.{Membership, of_user}
use doc_query.Organizations.{
  Organization, View, Cached, Packages, Tables, one, page, with_id, of_member, view, org_cache_key,
  new_organization, first_owner, create_rows, listing, viewed, organization_view,
}
use doc_query.Redis.{Scanner, del_pattern}
use doc_query.Redis.Through.{del_pattern-entry, del_pattern-ready}
use doc_query.Organizations.Keys.{org_cache_key-matches}
use doc_query.Organizations.Coherent.{Coherent}
use doc_query.Pagination.{num, build_offset_pagination}
use doc_query.Text.{codes, starts_with}

-- A search that succeeds gives the same on a longer list.
first-longer :
    {A : Type 0} (p : A → Bool) (xs ys : List A) (a : A)
    → first p xs ≡ some a
    → first p (xs ++ ys) ≡ some a
first-longer p [] ys a h = ground arith
first-longer p (x ∷ xs) ys a h = ground (arith, first-longer p xs ys a)

first-other :
    {A : Type 0} (p : A → Bool) (xs : List A) (y : A)
    → p y ≡ false
    → first p (xs ++ y ∷ []) ≡ first p xs
first-other p [] y h = ground arith
first-other p (x ∷ xs) y h = ground (arith, first-other p xs y h)

keep-other :
    {A : Type 0} (p : A → Bool) (xs : List A) (y : A)
    → p y ≡ false
    → keep p (xs ++ y ∷ []) ≡ keep p xs
keep-other p [] y h = ground arith
keep-other p (x ∷ xs) y h = ground (arith, keep-other p xs y h)

first-absent :
    {A : Type 0} (p q : A → Bool) (xs : List A) (a : A)
    → first p xs ≡ some a
    → count q xs ≡ 0
    → q a ≡ false
first-absent p q [] a h z = ground arith
first-absent p q (x ∷ xs) a h z = ground (arith, first-absent p q xs a)

count-keep_le :
    {A : Type 0} (p q : A → Bool) (xs : List A) → count p xs ≡ 0 → count p (keep q xs) ≡ 0
count-keep_le p q [] h = refl
count-keep_le p q (x ∷ xs) h = ground (arith, count-keep_le p q xs)

count-take_le :
    {A : Type 0} (p : A → Bool) (n : ℕ) (xs : List A) → count p xs ≡ 0 → count p (take n xs) ≡ 0
count-take_le p zero xs h = refl
count-take_le p (suc n) [] h = refl
count-take_le p (suc n) (x ∷ xs) h = ground (arith, count-take_le p n xs)

count-drop_le :
    {A : Type 0} (p : A → Bool) (n : ℕ) (xs : List A) → count p xs ≡ 0 → count p (drop n xs) ≡ 0
count-drop_le p zero xs h = h
count-drop_le p (suc n) [] h = refl
count-drop_le p (suc n) (x ∷ xs) h = count-drop_le p n xs (ground arith)

module _ (pk : Packages) where
  -- The view of a membership that does not belong to the new organization.
  view-created :
      (t : Tables) (o : Organization) (m : Membership)
      → (m.organization_id == o.id) ≡ false
      → view (pk.organizations.create o t.organizations) m ≡ view t.organizations m
  view-created t o m other =
      let same = pk.organizations.create_lem o t.organizations in
      let flip : with_id m.organization_id o ≡ false = ground (arith, other) in
      ap (λ x. record { organization = x; role = m.role; joined_at = m.created_at })
        (ap (first (with_id m.organization_id)) same
          ∙ first-other (with_id m.organization_id) t.organizations o flip)

  -- The views of memberships of which none belongs to it.
  map-view-created :
      (t : Tables) (o : Organization) (ms : List Membership)
      → count (λ m. m.organization_id == o.id) ms ≡ 0
      → map (view (pk.organizations.create o t.organizations)) ms ≡ map (view t.organizations) ms
  map-view-created t o [] z = refl
  map-view-created t o (m ∷ ms) z =
      let here = view-created t o m (ground (arith, z)) in
      let rest = map-view-created t o ms (ground (arith, z)) in rw (here, rest) refl

  module _ (name : List ℕ) (user now : ℕ) (t : Tables) where
    abbrev after : Tables
    after = create_rows pk name user now t

    create_rows-view :
        (u org : ℕ) (v : Cached)
        → organization_view pk org u t ≡ some v
        → organization_view pk org u after ≡ some v
    create_rows-view u org v h =
        let p = of_user u org in
        let new = first_owner pk user now t in
        let o = new_organization pk name now t in
        let before = pk.members.find_lem p t.members in
        elim (Option-cases (first p t.members)) [
          | inl absent ↦
              let e : none ≡ some v = sym (ap (λ x. viewed pk x t) (before ∙ absent)) ∙ h in
              absurd (ground (arith, e))
          | inr (m, found) ↦
              let other =
                first-absent p (λ m. m.organization_id == o.id) t.members m found
                  (pk.ids.new_organization-fresh t.members) in
              let finds =
                pk.members.find_lem p after.members
                ∙ ap (first p) (pk.members.create_lem new t.members)
                ∙ first-longer p t.members (new ∷ []) m found in
              ap (λ x. viewed pk x after) finds
              ∙ ap (λ w. some (one w)) (view-created t o m other)
              ∙ sym (ap (λ x. viewed pk x t) (before ∙ found))
              ∙ h
        ]

    create_rows-listing :
        (u : ℕ) → (user == u) ≡ false → listing pk u (num 1) 20 after ≡ listing pk u (num 1) 20 t
    create_rows-listing u other =
        let q = of_member u in
        let new = first_owner pk user now t in
        let o = new_organization pk name now t in
        let is_new = λ (m : Membership). m.organization_id == o.id in
        let found = pk.members.find_many q t.members in
        let new_rows = pk.members.create_lem new t.members in
        let rows : pk.members.find_many q after.members ≡ found =
          pk.members.find_many_lem q after.members
          ∙ ap (keep q) new_rows
          ∙ keep-other q t.members new other
          ∙ sym (pk.members.find_many_lem q t.members) in
        let total : pk.members.count_where q after.members ≡ pk.members.count_where q t.members =
          pk.members.count_lem q after.members
          ∙ ap (count q) new_rows
          ∙ count-append q t.members (new ∷ [])
          ∙ ground (arith, other)
          ∙ sym (pk.members.count_lem q t.members) in
        let fresh : count is_new (pk.oldest_first found) ≡ 0 =
          pk.count-oldest_first is_new found
          ∙ ap (count is_new) (pk.members.find_many_lem q t.members)
          ∙ count-keep_le is_new q t.members (pk.ids.new_organization-fresh t.members) in
        let some_rows = take 20 (drop ((1 - 1) * 20) (pk.oldest_first found)) in
        let views =
          map-view-created t o some_rows
            (count-take_le is_new 20 _ (count-drop_le is_new ((1 - 1) * 20) _ fresh)) in
        let answer = λ (vs : List View) (n : ℕ). some (
          page (record {
            organizations = vs;
            pagination = build_offset_pagination (num n) (num 1) (num 20);
          })) in
        ap
          (λ r.
            answer
              (map (view after.organizations) (take 20 (drop ((1 - 1) * 20) (pk.oldest_first r))))
              (pk.members.count_where q after.members))
          rows
        ∙ ap (λ vs. answer vs (pk.members.count_where q after.members)) views
        ∙ ap (λ n. answer (map (view t.organizations) some_rows) n) total

  module _ {C : Type 0} (cache : Scanner C Cached) where
    pub create-Coherent :
        (name : List ℕ) (user now : ℕ) (t : Tables) (c : C)
        → Coherent pk cache t c
        → Coherent pk cache
            (create_rows pk name user now t)
            (del_pattern cache (org_cache_key pk user []) c)
    create-Coherent name user now t c (up, views, lists) =
        let p = org_cache_key pk user [] in
        (
          del_pattern-ready cache p c up,
          (λ u org v h.
              let old = (del_pattern-entry cache p _ c v up h).0 in
              create_rows-view name user now t u org v (views u org v old)),
          (λ u v h.
              let (old, kept) = del_pattern-entry cache p _ c v up h in
              elim (Bool-cases (user == u)) [
                | inl same ↦
                    let matches = org_cache_key-matches pk u (codes "list") in
                    let e =
                      subst
                        (λ x.
                          starts_with (org_cache_key pk x []) (org_cache_key pk u (codes "list"))
                          ≡ true)
                        (sym ((==_iff user u).0 same)) matches in
                    absurd (ground (arith, e, kept))
                | inr other ↦ create_rows-listing name user now t u other ∙ lists u v old
              ]),
        )
