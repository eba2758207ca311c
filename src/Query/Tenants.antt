-- ===== src/Query/Tenants.antt =====
-- The cache of answers keeps organizations apart (services/rag-cache.service.js).
use doc_query.Base.{
  ℕ, ◌≡◌, refl, arith, false, ◌==◌, Bool-cases, List, [], ◌∷◌, ◌++◌, length, inl, inr,
}
use doc_query.Text.{text_eq}
use doc_query.Context.{first_set}
use doc_query.Redis.{Client, redis_get, redis_set}
use doc_query.Query.Rows.{Args, Answer, Settings, Services}
use doc_query.Query.Cache.{key_of, cache_get, cache_set}

-- What the texts of identifiers are relied on for: they have one length, and differ.
pub record UuidTexts (sv : Services) : Type 0 where
  pub same_length : (n m : ℕ) → length (sv.uuid_text n) ≡ length (sv.uuid_text m)
  pub distinct : (n m : ℕ) → (n == m) ≡ false → text_eq (sv.uuid_text n) (sv.uuid_text m) ≡ false

text_eq-append :
    (u v x y : List ℕ)
    → length u ≡ length v
    → text_eq u v ≡ false
    → text_eq (u ++ x) (v ++ y) ≡ false
unfolding text_eq
text_eq-append [] [] x y l h = absurd (ground arith)
text_eq-append [] (b ∷ v) x y l h = absurd (ground arith)
text_eq-append (a ∷ u) [] x y l h = absurd (ground arith)
text_eq-append (a ∷ u) (b ∷ v) x y l h = elim (Bool-cases (a == b)) [
  | inl e ↦ rw e (text_eq-append u v x y (ground arith) (ground (arith, e, h)))
  | inr e ↦ rw e refl
]

pub key_of-other_tenant :
    (sv : Services) (st : Settings) (a b : Args) (p q : List ℕ)
    → UuidTexts sv
    → (a.organization_id == b.organization_id) ≡ false
    → text_eq (key_of sv st a p) (key_of sv st b q) ≡ false
unfolding text_eq
key_of-other_tenant sv st a b p q texts h =
    text_eq-append (sv.uuid_text a.organization_id) (sv.uuid_text b.organization_id) _ _
      (texts.same_length a.organization_id b.organization_id)
      (texts.distinct a.organization_id b.organization_id h)

module _ {C : Type 0} (client : Client C Answer) (sv : Services) (st : Settings) where
  -- What one organization stores makes no difference to what another one finds.
  pub cache_set-other_tenant :
      (a b : Args) (p q : List ℕ) (r : Answer) (c : C)
      → UuidTexts sv
      → (a.organization_id == b.organization_id) ≡ false
      → cache_get client sv st b q (cache_set client sv st a p r c).1 ≡ cache_get client sv st b q c
  unfolding cache_get cache_set redis_get redis_set
  cache_set-other_tenant a b p q r c texts h = ground (
    arith,
    client.ready-set (key_of sv st a p) r (first_set (st.cache_ttl ∷ []) 3600) c,
    client.get-set_other (key_of sv st a p) (key_of sv st b q) r
        (first_set (st.cache_ttl ∷ []) 3600) c (key_of-other_tenant sv st a b p q texts h),
  )
