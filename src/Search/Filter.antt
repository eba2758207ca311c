-- ===== src/Search/Filter.antt =====
-- A search in one document, by a user who may read some documents only (modules/search).
use doc_query.Base.{ℕ, ◌≡◌, refl, Bool, none, some, List, ◌∷◌}
use doc_query.Base.Table.{Table}
use doc_query.Documents.Rows.{Document}
use doc_query.Search.{
  hybrid_search, vector_search, keyword_search, find_similar_chunks, find_keyword_chunks,
}
use doc_query.Search.Rows.{Engine, State}

module _ (docs : Table Document) (e : Engine) where
  -- Where a search names a document, the list of allowed documents makes no difference, as long as it
  -- is not empty: the search finds what it finds without any list, also where the named document is
  -- not in the list.
  pub hybrid_search-ignores_allowed :
      (org : ℕ) (query : List ℕ) (top_k id threshold : ℕ) (enable : Bool) (a : ℕ) (ids : List ℕ)
      (s : State)
      → hybrid_search docs e org query top_k (some id) threshold enable (some (a ∷ ids)) s
        ≡ hybrid_search docs e org query top_k (some id) threshold enable none s
  unfolding hybrid_search vector_search keyword_search find_similar_chunks find_keyword_chunks
  hybrid_search-ignores_allowed org query top_k id threshold enable a ids s = refl
