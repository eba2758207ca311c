-- ===== src/Query/Cache.antt =====
-- services/rag-cache.service.js: answers by organization and question.
use doc_query.Base.{
  ℕ, Bool, true, false, Option, none, some, List, [], ◌∷◌, ◌++◌, or_else, if◌then◌else◌,
}
use doc_query.Text.{codes, trim}
use doc_query.Redis.{Client, Scanner, build_key, redis_get, redis_set, del_pattern}
use doc_query.Context.{first_set}
use doc_query.Query.Rows.{Answer, Args, Services, Settings}

abbrev pub is_empty : List ℕ → Bool
is_empty [] = true
is_empty (c ∷ s) = false

-- `topK || …`
abbrev pub set_or : Option ℕ → ℕ → ℕ
set_or none d = d
set_or (some n) d = first_set (n ∷ []) d

-- `documentId || 'all'`
abbrev scope_text : Services → Option ℕ → List ℕ
scope_text sv none = codes "all"
scope_text sv (some id) = sv.uuid_text id

-- `rawSignature`
pub signature : Services → Settings → List ℕ → Option ℕ → Option ℕ → Option ℕ → List ℕ
signature sv st query doc top_k threshold =
    sv.to_lower (trim query)
    ++ (codes ":::"
        ++ (scope_text sv doc
            ++ (codes ":::"
                ++ (sv.decimal (set_or top_k st.default_top_k)
                    ++ (codes ":::" ++ sv.number_text (or_else threshold st.default_threshold))))))

pub compute_query_hash : Services → Settings → List ℕ → Option ℕ → Option ℕ → Option ℕ → List ℕ
unfolding signature
compute_query_hash sv st query doc top_k threshold =
    sv.sha256 (signature sv st query doc top_k threshold)

abbrev pub build_cache_key : Services → ℕ → List ℕ → List ℕ
build_cache_key sv org hash =
    build_key (codes "rag" ∷ codes "tenant" ∷ sv.uuid_text org ∷ codes "query" ∷ hash ∷ [])

-- The key of a question.
abbrev pub key_of : Services → Settings → Args → List ℕ → List ℕ
key_of sv st a query =
    build_cache_key sv a.organization_id
      (compute_query_hash sv st query a.document_id a.top_k a.threshold)

module _ {C : Type 0} (client : Client C Answer) (sv : Services) (st : Settings) where
  -- `get`
  unfoldable pub cache_get : Args → List ℕ → C → Option Answer
  unfolding compute_query_hash
  cache_get a query c = if is_empty query then none else redis_get client (key_of sv st a query) c

  -- `set`
  unfoldable pub cache_set : Args → List ℕ → Answer → C → Bool × C
  unfolding compute_query_hash
  cache_set a query answer c =
      if is_empty query
      then (false, c)
      else redis_set client (key_of sv st a query) answer (first_set (st.cache_ttl ∷ []) 3600) c

-- What stands in front of the `*` of `buildKey('rag', 'tenant', organizationId, '*')`.
abbrev pub tenant_pattern : Services → ℕ → List ℕ
tenant_pattern sv org = build_key (codes "rag" ∷ codes "tenant" ∷ sv.uuid_text org ∷ [] ∷ [])

-- `invalidateTenant`, without the count of the keys.
unfoldable pub invalidate_tenant : {C : Type 0} → Scanner C Answer → Services → ℕ → C → C
invalidate_tenant cache sv org c = del_pattern cache (tenant_pattern sv org) c
