-- ===== src/Organizations/Keys.antt =====
-- The keys of the cache of organizations (orgCacheKey): no two of them are the same.
use doc_query.Base.{ℕ, ◌≡◌, refl, ap, true, List, [], ◌∷◌, ◌++◌, length, drop, arith}
use doc_query.Organizations.{Packages, org_cache_key}
use doc_query.Text.{codes, starts_with}

split_colon :
    (a b s t : List ℕ) → length a ≡ length b → a ++ 58 ∷ s ≡ b ++ 58 ∷ t → (a ≡ b) × (s ≡ t)
split_colon [] [] s t h e = (refl, ap (drop 1) e)
split_colon [] (d ∷ b) s t h e = absurd (ground arith)
split_colon (c ∷ a) [] s t h e = absurd (ground arith)
split_colon (c ∷ a) (d ∷ b) s t h e =
    let (same, rest) = split_colon a b s t (ground arith) (ap (drop 1) e) in (ground arith, rest)

starts_with-colon : (a s : List ℕ) → starts_with (a ++ 58 ∷ []) (a ++ 58 ∷ s) ≡ true
unfolding starts_with
starts_with-colon [] s = refl
starts_with-colon (c ∷ a) s = ground (arith, starts_with-colon a s)

module _ (pk : Packages) where
  pub org_cache_key_inj :
      (u v : ℕ) (s t : List ℕ) → org_cache_key pk u s ≡ org_cache_key pk v t → (u ≡ v) × (s ≡ t)
  org_cache_key_inj u v s t e =
      let n = pk.ids.length-uuid_text u in
      let m = pk.ids.length-uuid_text v in
      let (same, rest) =
        split_colon (pk.ids.uuid_text u) (pk.ids.uuid_text v) s t (omega (arith, n, m))
          (ap (drop 19) e) in
      (pk.ids.uuid_text_inj u v same, rest)

  -- The keys of a user match the pattern that the user's organizations are dropped by.
  pub org_cache_key-matches :
      (u : ℕ) (s : List ℕ) → starts_with (org_cache_key pk u []) (org_cache_key pk u s) ≡ true
  unfolding starts_with
  org_cache_key-matches u s = starts_with-colon (pk.ids.uuid_text u) s

  -- The key of a list is not the key of an organization.
  pub list_key_differs :
      (u v org : ℕ)
      → org_cache_key pk u (codes "list") ≡ org_cache_key pk v (pk.ids.uuid_text org)
      → ⊥
  list_key_differs u v org e =
      let same = (org_cache_key_inj u v (codes "list") (pk.ids.uuid_text org) e).1 in
      let n = pk.ids.length-uuid_text org in
      let l : 4 ≡ length (pk.ids.uuid_text org) = ap length same in absurd (omega (arith, n, l))
