-- ===== src/Query/Invalidated.antt =====
-- Cached answers after an organization's were dropped (invalidateTenant of services/rag-cache.service.js).
use doc_query.Base.{
  ℕ, ◌≡◌, refl, true, false, none, ◌==◌, ==_iff, Bool-cases, List, [], ◌∷◌, ◌++◌, length, inl, inr,
  subst, sym, arith, if◌then◌else◌,
}
use doc_query.Query.Cache.{key_of, cache_get, tenant_pattern, invalidate_tenant}
use doc_query.Query.Rows.{Args, Answer, Settings, Services}
use doc_query.Query.Tenants.{UuidTexts}
use doc_query.Redis.{Scanner, redis_get, del_pattern}
use doc_query.Text.{starts_with, text_eq}

starts_with-same : (u x : List ℕ) → starts_with (u ++ 58 ∷ []) (u ++ 58 ∷ x) ≡ true
unfolding starts_with
starts_with-same [] x = refl
starts_with-same (a ∷ u) x = ground (arith, starts_with-same u x)

starts_with-other :
    (u v x : List ℕ)
    → length u ≡ length v
    → text_eq u v ≡ false
    → starts_with (u ++ 58 ∷ []) (v ++ 58 ∷ x) ≡ false
unfolding starts_with text_eq
starts_with-other [] [] x l h = absurd (ground arith)
starts_with-other [] (b ∷ v) x l h = absurd (ground arith)
starts_with-other (a ∷ u) [] x l h = absurd (ground arith)
starts_with-other (a ∷ u) (b ∷ v) x l h = elim (Bool-cases (a == b)) [
  | inl e ↦ rw e (starts_with-other u v x (ground arith) (ground (arith, e, h)))
  | inr e ↦ rw e refl
]

module _ {C : Type 0} (cache : Scanner C Answer) (sv : Services) (st : Settings) where
  same_tenant :
      (a : Args) (q : List ℕ)
      → starts_with (tenant_pattern sv a.organization_id) (key_of sv st a q) ≡ true
  unfolding starts_with
  same_tenant a q = starts_with-same (sv.uuid_text a.organization_id) _

  other_tenant :
      (org : ℕ) (a : Args) (q : List ℕ)
      → UuidTexts sv
      → (org == a.organization_id) ≡ false
      → starts_with (tenant_pattern sv org) (key_of sv st a q) ≡ false
  unfolding starts_with
  other_tenant org a q texts h =
      starts_with-other (sv.uuid_text org) (sv.uuid_text a.organization_id) _
        (texts.same_length org a.organization_id) (texts.distinct org a.organization_id h)

  -- Where the store is ready, an organization whose answers were dropped finds none for any question,
  -- and every other organization finds what it would have found.
  pub cache_get-invalidate_tenant :
      (org : ℕ) (a : Args) (q : List ℕ) (c : C)
      → UuidTexts sv
      → cache.client.ready c ≡ true
      → cache_get cache.client sv st a q (invalidate_tenant cache sv org c)
        ≡ (if org == a.organization_id then none else cache_get cache.client sv st a q c)
  unfolding cache_get invalidate_tenant redis_get del_pattern
  cache_get-invalidate_tenant org a q c texts up =
      let p = tenant_pattern sv org in
      let k = key_of sv st a q in
      let ready = cache.ready-delete p c in
      elim (Bool-cases (org == a.organization_id)) [
        | inl own ↦
            let e = (==_iff org a.organization_id).0 own in
            let matches =
              subst (λ o. starts_with (tenant_pattern sv o) k ≡ true) (sym e) (same_tenant a q) in
            let gone = cache.get-delete p k c matches in rw own (ground (arith, up, ready, gone))
        | inr other ↦
            let kept = cache.get-delete_other p k c (other_tenant org a q texts other) in
            rw other (ground (arith, up, ready, kept))
      ]
