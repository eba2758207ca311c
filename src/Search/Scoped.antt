-- ===== src/Search/Scoped.antt =====
-- Which documents a search can reach (modules/search).
use doc_query.Base.{
  ℕ, suc, zero, ◌≡◌, refl, ◌∙◌, Bool, true, false, not, ◌&&◌, ◌||◌, Option, none, some, List, [],
  ◌∷◌, map, keep, take, any, count, All, arith, if◌then◌else◌,
}
use doc_query.Base.Table.{Table}
use doc_query.Base.Attempt.{
  Attempt, got, threw, Results, Results-always, Results-if, Results-unless,
}
use doc_query.Text.{trim}
use doc_query.Context.{Candidate}
use doc_query.Documents.Rows.{Document}
use doc_query.Search.{
  Allowed, allows_nothing, joins, joined, is_empty, hit, find_similar_chunks, find_keyword_chunks,
  check_document, vector_search, keyword_search, settled, hybrid_search,
}
use doc_query.Search.Rows.{ChunkRow, Engine, State}
use doc_query.Search.Fusion.Sources.{fuse_results-All}

-- The document of a chunk is one that the filters of the search let pass.
abbrev pub reachable : ℕ → Option ℕ → Allowed → List Document → Option ℕ → Bool
reachable org doc allowed docs none = false
reachable org doc allowed docs (some id) =
    not (allows_nothing allowed) && any (joins org doc allowed id) docs

-- Every chunk of a list is of such a document.
abbrev pub InReach : ℕ → Option ℕ → Allowed → List Document → List Candidate → Type 0
InReach org doc allowed docs =
    All (λ (c : Candidate). reachable org doc allowed docs c.document_id ≡ true)

All-take : (P : ChunkRow → Type 0) (n : ℕ) (xs : List ChunkRow) → All P xs → All P (take n xs)
All-take P zero xs h = tt
All-take P (suc n) [] h = tt
All-take P (suc n) (x ∷ xs) h = (h.0, All-take P n xs h.1)

-- From a count of the exceptions.
All-of_count :
    (p : ChunkRow → Bool) (xs : List ChunkRow)
    → count (λ x. not (p x)) xs ≡ 0
    → All (λ x. p x ≡ true) xs
All-of_count p [] h = tt
All-of_count p (x ∷ xs) h = ground (arith, All-of_count p xs)

count-keep :
    (p q : ChunkRow → Bool) (xs : List ChunkRow)
    → count (λ x. not (p x)) (keep (λ x. p x && q x) xs) ≡ 0
count-keep p q [] = refl
count-keep p q (x ∷ xs) = ground (arith, count-keep p q xs)

hits-InReach :
    (org : ℕ) (doc : Option ℕ) (allowed : Allowed) (docs : List Document) (e : Engine)
    (score : ChunkRow → ℕ) (rows : List ChunkRow)
    → allows_nothing allowed ≡ false
    → All (λ c. joined org doc allowed docs c ≡ true) rows
    → InReach org doc allowed docs (map (λ c. hit e (score c) c) rows)
hits-InReach org doc allowed docs e score [] k h = tt
hits-InReach org doc allowed docs e score (c ∷ rows) k h =
    (ground (arith, k, h.0), hits-InReach org doc allowed docs e score rows k h.1)

module _ (docs : Table Document) (e : Engine) where
  find_similar_chunks-joined :
      (org vector top_k threshold : ℕ) (doc : Option ℕ) (allowed : Allowed) (s : State)
      → All
          (λ c. joined org doc allowed s.documents c ≡ true)
          (find_similar_chunks docs e org vector top_k threshold doc allowed s)
  unfolding find_similar_chunks
  find_similar_chunks-joined org vector top_k threshold doc allowed s =
      by_filter (allows_nothing allowed)
    where
      by_filter :
          (b : Bool)
          → All
              (λ c. joined org doc allowed s.documents c ≡ true)
              (if b
                then []
                else take top_k (
                    e.nearest vector (
                      keep
                        (λ c. joined org doc allowed s.documents c && e.similar vector threshold c)
                        s.chunks)))
      by_filter true = tt
      by_filter false =
          All-take (λ c. joined org doc allowed s.documents c ≡ true) top_k _
            (All-of_count (joined org doc allowed s.documents) _ (
              e.nearest_lem vector (λ c. not (joined org doc allowed s.documents c)) _
              ∙ count-keep (joined org doc allowed s.documents) (e.similar vector threshold)
                  s.chunks))

  find_keyword_chunks-joined :
      (org : ℕ) (query : List ℕ) (top_k : ℕ) (doc : Option ℕ) (allowed : Allowed) (s : State)
      → All
          (λ c. joined org doc allowed s.documents c ≡ true)
          (find_keyword_chunks docs e org query top_k doc allowed s)
  unfolding find_keyword_chunks
  find_keyword_chunks-joined org query top_k doc allowed s =
      by_filter (is_empty (trim query) || allows_nothing allowed)
    where
      by_filter :
          (b : Bool)
          → All
              (λ c. joined org doc allowed s.documents c ≡ true)
              (if b
                then []
                else take top_k (
                    e.best query (
                      keep
                        (λ c. joined org doc allowed s.documents c && e.matches query c)
                        s.chunks)))
      by_filter true = tt
      by_filter false =
          All-take (λ c. joined org doc allowed s.documents c ≡ true) top_k _
            (All-of_count (joined org doc allowed s.documents) _ (
              e.best_lem query (λ c. not (joined org doc allowed s.documents c)) _
              ∙ count-keep (joined org doc allowed s.documents) (e.matches query) s.chunks))

  pub vector_search-InReach :
      (org : ℕ) (query : List ℕ) (top_k : ℕ) (doc : Option ℕ) (threshold : ℕ) (allowed : Allowed)
      (s : State)
      → Results
          (InReach org doc allowed s.documents)
          (vector_search docs e org query top_k doc threshold allowed s)
  unfolding vector_search
  vector_search-InReach org query top_k doc threshold allowed s =
      let P = InReach org doc allowed s.documents in
      Results-unless P (allows_nothing allowed) _ _ tt λ some_allowed.
        (Results-always P (check_document docs e org doc s) _ λ go_on.
          Results-if P go_on _ _
            (Results-always P (e.embed query) _ λ vector.
              hits-InReach org doc allowed s.documents e (e.similarity vector) _ some_allowed
                (find_similar_chunks-joined org vector top_k threshold doc allowed s))
            tt)

  keyword_search-InReach :
      (org : ℕ) (query : List ℕ) (top_k : ℕ) (doc : Option ℕ) (allowed : Allowed) (s : State)
      → Results
          (InReach org doc allowed s.documents)
          (keyword_search docs e org query top_k doc allowed s)
  unfolding keyword_search
  keyword_search-InReach org query top_k doc allowed s =
      let P = InReach org doc allowed s.documents in
      Results-unless P (is_empty (trim query) || allows_nothing allowed) _ _ tt λ some_allowed.
        (Results-always P (check_document docs e org doc s) _ λ go_on.
          Results-if P go_on _ _
            (hits-InReach org doc allowed s.documents e (e.text_rank query) _
              (ground (arith, some_allowed))
              (find_keyword_chunks-joined org (trim query) top_k doc allowed s))
            tt)

  settled-InReach :
      (org : ℕ) (doc : Option ℕ) (allowed : Allowed) (rows : List Document)
      (t : Attempt (List Candidate))
      → Results (InReach org doc allowed rows) t
      → InReach org doc allowed rows (settled docs e t)
  settled-InReach org doc allowed rows (got hits) h = h
  settled-InReach org doc allowed rows (threw x) h = tt

  -- Every chunk that a search returns, with or without the fusion of both searches, is of a document
  -- that the filters let pass.
  pub hybrid_search-InReach :
      (org : ℕ) (query : List ℕ) (top_k : ℕ) (doc : Option ℕ) (threshold : ℕ) (enable : Bool)
      (allowed : Allowed) (s : State)
      → Results
          (InReach org doc allowed s.documents)
          (hybrid_search docs e org query top_k doc threshold enable allowed s)
  unfolding hybrid_search
  hybrid_search-InReach org query top_k doc threshold enable allowed s =
      let P = InReach org doc allowed s.documents in
      Results-if P (allows_nothing allowed) _ _ tt (
        Results-if P (not enable) _ _
          (vector_search-InReach org query top_k doc threshold allowed s)
          (fuse_results-All (λ d. reachable org doc allowed s.documents d ≡ true) e.arithmetic
            (e.rrf_k ∷ []) (top_k ∷ []) _ _
            (settled-InReach org doc allowed s.documents _
              (vector_search-InReach org query 20 doc threshold allowed s))
            (settled-InReach org doc allowed s.documents _
              (keyword_search-InReach org query 20 doc allowed s))))
