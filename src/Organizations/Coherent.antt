-- ===== src/Organizations/Coherent.antt =====
-- A cache that holds only what the database gives, and that every operation keeps so
-- (modules/organizations/organization.service.js).
use doc_query.Base.{ℕ, ◌≡◌, sym, subst, true, inl, inr, Option, some, List}
use doc_query.Organizations.{
  Cached, Packages, Tables, org_cache_key, listing, organization_view, cache_ttl,
}
use doc_query.Organizations.Keys.{org_cache_key_inj, list_key_differs}
use doc_query.Pagination.{num}
use doc_query.Redis.{Scanner, read_through}
use doc_query.Redis.Through.{read_through-entry, read_through-ready}
use doc_query.Text.{codes}

module _ {C : Type 0} (pk : Packages) (cache : Scanner C Cached) where
  abbrev pub entry : List ℕ → C → Option Cached
  entry k c = cache.client.get k c

  -- What is cached under a key of `getById` or of `listForUser` is what the database gives.
  abbrev pub ViewsHold : Tables → C → Type 0
  ViewsHold t c =
      (u org : ℕ) (v : Cached)
      → entry (org_cache_key pk u (pk.ids.uuid_text org)) c ≡ some v
      → organization_view pk org u t ≡ some v

  abbrev pub ListsHold : Tables → C → Type 0
  ListsHold t c =
      (u : ℕ) (v : Cached)
      → entry (org_cache_key pk u (codes "list")) c ≡ some v
      → listing pk u (num 1) 20 t ≡ some v

  abbrev pub Coherent : Tables → C → Type 0
  Coherent t c = (cache.client.ready c ≡ true) × ViewsHold t c × ListsHold t c

  pub get-Coherent :
      (org user : ℕ) (t : Tables) (c : C)
      → Coherent t c
      → Coherent t
          (read_through cache.client
            (org_cache_key pk user (pk.ids.uuid_text org))
            cache_ttl
            (organization_view pk org user t)
            c).1
  get-Coherent org user t c (up, views, lists) =
      let key = org_cache_key pk user (pk.ids.uuid_text org) in
      let o = organization_view pk org user t in
      (
        read_through-ready cache.client cache_ttl key o c up,
        (λ u org' v h. elim (read_through-entry cache.client cache_ttl key _ o c v up h) [
          | inl old ↦ views u org' v old
          | inr (same, new) ↦
              let (e, e') = org_cache_key_inj pk u user _ _ same in
              let o' = pk.ids.uuid_text_inj org' org e' in
              subst (λ x. organization_view pk org' x t ≡ some v) (sym e)
                (subst (λ y. organization_view pk y user t ≡ some v) (sym o') new)
        ]),
        (λ u v h. elim (read_through-entry cache.client cache_ttl key _ o c v up h) [
          | inl old ↦ lists u v old
          | inr (same, new) ↦ absurd (list_key_differs pk u user org same)
        ]),
      )

  pub list-Coherent :
      (user : ℕ) (t : Tables) (c : C)
      → Coherent t c
      → Coherent t
          (read_through cache.client
            (org_cache_key pk user (codes "list"))
            cache_ttl
            (listing pk user (num 1) 20 t)
            c).1
  list-Coherent user t c (up, views, lists) =
      let key = org_cache_key pk user (codes "list") in
      let o = listing pk user (num 1) 20 t in
      (
        read_through-ready cache.client cache_ttl key o c up,
        (λ u org v h. elim (read_through-entry cache.client cache_ttl key _ o c v up h) [
          | inl old ↦ views u org v old
          | inr (same, new) ↦ absurd (list_key_differs pk user u org (sym same))
        ]),
        (λ u v h. elim (read_through-entry cache.client cache_ttl key _ o c v up h) [
          | inl old ↦ lists u v old
          | inr (same, new) ↦
              let (e, e') = org_cache_key_inj pk u user _ _ same in
              subst (λ x. listing pk x (num 1) 20 t ≡ some v) (sym e) new
        ]),
      )
