-- ===== src/Organizations/Transparent.antt =====
-- The organizations with the cache and without it (modules/organizations/organization.service.js).
use doc_query.Base.{
  ℕ, ◌≡◌, refl, ap, ◌∙◌, ==_iff, true, Bool-cases, inl, inr, Option, List, [], ◌∷◌, arith,
}
use doc_query.Organizations.{
  Organization, Cached, cache_ttl, Packages, Tables, org_cache_key, new_organization, create_rows,
  listing, organization_view, create, list_for_user, get_by_id, is_first_page, paged,
}
use doc_query.Organizations.Coherent.{Coherent, get-Coherent, list-Coherent}
use doc_query.Redis.{Scanner}
use doc_query.Redis.Through.{read_through-answer}
use doc_query.Organizations.Created.{create-Coherent}
use doc_query.Pagination.{
  Value, num, negative, infinity, nan, undefined, object, Query, parse_pagination_params,
}
use doc_query.Text.{codes}

-- A request, by whom, and for which name, page or organization.
pub data Call : Type 0 where
  creates : List ℕ → ℕ → ℕ → Call
  lists : ℕ → Query → Call
  gets : ℕ → ℕ → Call

pub data Answer : Type 0 where
  created : Organization → Answer
  answered : Option Cached → Answer

first_page_is : (p : Value) (l : ℕ) → is_first_page p l ≡ true → (p ≡ num 1) × (l ≡ 20)
first_page_is (num p) l h =
    (ap num ((==_iff p 1).0 (ground (arith, h))), (==_iff l 20).0 (ground (arith, h)))
first_page_is (negative p) l h = absurd (ground (arith, h))
first_page_is infinity l h = absurd (ground (arith, h))
first_page_is nan l h = absurd (ground (arith, h))
first_page_is undefined l h = absurd (ground (arith, h))
first_page_is object l h = absurd (ground (arith, h))

module _ {C : Type 0} (pk : Packages) (cache : Scanner C Cached) where
  abbrev pub serve : Call → Tables → C → Answer × Tables × C
  serve (creates name user now) t c =
      let (o, t', c') = create pk cache name user now t c in (created o, t', c')
  serve (lists user q) t c = let (v, c') = list_for_user pk cache user q t c in (answered v, t, c')
  serve (gets org user) t c = let (v, c') = get_by_id pk cache org user t c in (answered v, t, c')

  abbrev pub answers : List Call → Tables → C → List Answer
  answers [] t c = []
  answers (call ∷ calls) t c = let (a, t', c') = serve call t c in a ∷ answers calls t' c'

  -- The same requests answered from the database alone.
  abbrev pub plain : Call → Tables → Answer × Tables
  plain (creates name user now) t =
      (created (new_organization pk name now t), create_rows pk name user now t)
  plain (lists user q) t =
      let params = parse_pagination_params pk.parse_int q in
      (answered (listing pk user params.page params.limit t), t)
  plain (gets org user) t = (answered (organization_view pk org user t), t)

  abbrev pub plain_answers : List Call → Tables → List Answer
  plain_answers [] t = []
  plain_answers (call ∷ calls) t = let (a, t') = plain call t in a ∷ plain_answers calls t'

  paged-plain :
      (user : ℕ) (p : Value) (l : ℕ) (t : Tables) (c : C)
      → Coherent pk cache t c
      → ((paged pk cache user p l t c).0 ≡ listing pk user p l t)
        × Coherent pk cache t (paged pk cache user p l t c).1
  paged-plain user p l t c ok = elim (Bool-cases (is_first_page p l)) [
    | inl is_first ↦
        let (e, e') = first_page_is p l is_first in
        let key = org_cache_key pk user (codes "list") in
        rw (e, e')
          (
            read_through-answer cache.client cache_ttl key (listing pk user (num 1) 20 t) c ok.0
                (ok.2 user),
            list-Coherent pk cache user t c ok,
          )
    | inr later ↦ rw later (refl, ok)
  ]

  serve-plain :
      (call : Call) (t : Tables) (c : C)
      → Coherent pk cache t c
      → ((serve call t c).0 ≡ (plain call t).0)
        × ((serve call t c).1 ≡ (plain call t).1)
        × Coherent pk cache (plain call t).1 (serve call t c).2
  unfolding create list_for_user get_by_id
  serve-plain (creates name user now) t c ok =
      (refl, refl, create-Coherent pk cache name user now t c ok)
  serve-plain (gets org user) t c ok =
      let key = org_cache_key pk user (pk.ids.uuid_text org) in
      (
        ap answered (
            read_through-answer cache.client cache_ttl key (organization_view pk org user t) c ok.0
              (ok.1 user org)),
        refl,
        get-Coherent pk cache org user t c ok,
      )
  serve-plain (lists user q) t c ok =
      let params = parse_pagination_params pk.parse_int q in
      let (same, kept) = paged-plain user params.page params.limit t c ok in
      (ap answered same, refl, kept)

  -- Where the client of the cache is ready and the cache holds only what the database gives, any
  -- requests of any users to create, list and show organizations are answered, one after the other, as
  -- if there were no cache.
  pub answers-plain :
      (calls : List Call) (t : Tables) (c : C)
      → Coherent pk cache t c
      → answers calls t c ≡ plain_answers calls t
  answers-plain [] t c ok = refl
  answers-plain (call ∷ calls) t c ok =
      let (a, t', kept) = serve-plain call t c ok in
      let rest = answers-plain calls (plain call t).1 (serve call t c).2 kept in
      ap (λ x. (serve call t c).0 ∷ answers calls x (serve call t c).2) t'
      ∙ ap (λ x. x ∷ answers calls (plain call t).1 (serve call t c).2) a
      ∙ ap (λ r. (plain call t).0 ∷ r) rest
