-- ===== src/Query/Rerankers.antt =====
-- query/rerankers: the two rerankers and the choice between them (score.reranker.js,
-- cohere.reranker.js, reranker.factory.js). The points that the score reranker gives for words that
-- occur in a chunk, computed with regular expressions and doubles, are a parameter, and so is the call
-- of the service of Cohere.
use doc_query.Base.{
  ℕ, zero, suc, true, false, ◌≡◌, ◌<◌, ◌+◌, Bool, ltb, Option, none, some, List, [], ◌∷◌, map, take,
  length, All, if◌then◌else◌, refl, arith,
}
use doc_query.Base.Attempt.{Attempt, got, threw}
use doc_query.Context.{Candidate, first_set}
use doc_query.Context.Sources.{Of}
use doc_query.Query.Rows.{Services}

-- `RERANKER_PROVIDER`; the reranker of Cohere has a key or not.
pub data Provider : Type 0 where
  score_provider : Provider
  cohere_provider : Bool → Provider

pub record Reranking : Type 0 where
  pub provider : Provider
  -- `combinedScore.toFixed(6)` of a question and the chunk at an index
  pub combined : List ℕ → ℕ → Candidate → ℕ
  -- `relevance_score.toFixed(6)`
  pub fixed : ℕ → ℕ
  -- the service: a question, the texts and `top_n`; an index and a score for each result, or a failure
  pub ask_service : List ℕ → List (List ℕ) → ℕ → Attempt (List (ℕ × ℕ))
  -- as documented, an index is the position of one of the texts
  pub ask_service_lem :
      (query : List ℕ) (texts : List (List ℕ)) (n : ℕ) (results : List (ℕ × ℕ))
      → ask_service query texts n ≡ got results
      → All (λ (r : ℕ × ℕ). r.0 < length texts) results

-- `documents[index]`; past the end it is undefined, and its spread has no field.
abbrev pub undefined_document : Candidate
undefined_document = record {
  chunk_id = none;
  document_id = none;
  content = [];
  score = 0;
  vector_score = none;
  page_number = none;
  chunk_index = 0;
  metadata = 0;
}

abbrev pub at_index : List Candidate → ℕ → Candidate
at_index [] i = undefined_document
at_index (d ∷ ds) zero = d
at_index (d ∷ ds) (suc i) = at_index ds i

-- `scoredDocs`: each document with its score.
abbrev pub scored_docs : Reranking → List ℕ → ℕ → List Candidate → List (Candidate × ℕ)
scored_docs rk query i [] = []
scored_docs rk query i (d ∷ ds) = (d, rk.combined query i d) ∷ scored_docs rk query (i + 1) ds

-- The stable sort by descending score.
abbrev pub insert_scored : Candidate × ℕ → List (Candidate × ℕ) → List (Candidate × ℕ)
insert_scored x [] = x ∷ []
insert_scored x (y ∷ ys) =
    let later = y ∷ insert_scored x ys in if ltb x.1 y.1 then later else x ∷ y ∷ ys

abbrev pub sort_scored : List (Candidate × ℕ) → List (Candidate × ℕ)
sort_scored [] = []
sort_scored (x ∷ xs) = insert_scored x (sort_scored xs)

-- A result of the score reranker; `vectorScore ?? score`.
abbrev pub score_result : Candidate × ℕ → Candidate
score_result (d, n) = record d {
  score = n;
  vector_score = elim d.vector_score [ none ↦ some d.score | some v ↦ some v ];
}

-- `ScoreReranker.rerank`
unfoldable pub score_rerank : Reranking → List ℕ → List Candidate → ℕ → List Candidate
score_rerank rk query docs k =
    map score_result
      (take (first_set (k ∷ []) (length docs)) (sort_scored (scored_docs rk query 0 docs)))

-- A result of the service, mapped back to its document.
abbrev pub service_result : Reranking → List Candidate → ℕ × ℕ → Candidate
service_result rk docs (i, n) = record (at_index docs i) { score = rk.fixed n }

-- A failure of the service falls back to the score reranker.
abbrev pub or_score :
    Reranking → List ℕ → List Candidate → ℕ → Attempt (List (ℕ × ℕ)) → List Candidate
or_score rk query docs k (got results) = map (service_result rk docs) results
or_score rk query docs k (threw x) = score_rerank rk query docs k

-- `CohereReranker.rerank`
unfoldable pub cohere_rerank : Reranking → Bool → List ℕ → List Candidate → ℕ → List Candidate
unfolding score_rerank
cohere_rerank rk has_key query [] k = []
cohere_rerank rk has_key query (d ∷ ds) k =
    if has_key
    then or_score rk query (d ∷ ds) k (
        rk.ask_service query (map (λ (c : Candidate). c.content) (d ∷ ds))
          (first_set (k ∷ []) (length (d ∷ ds))))
    else score_rerank rk query (d ∷ ds) k

-- `RerankerFactory.getReranker`
abbrev pub rerank_by : Reranking → Provider → List ℕ → List Candidate → ℕ → List Candidate
rerank_by rk score_provider query docs k = score_rerank rk query docs k
rerank_by rk (cohere_provider has_key) query docs k = cohere_rerank rk has_key query docs k

-- The services of a query with the reranker that the factory gives.
abbrev pub with_reranker : Reranking → Services → Services
with_reranker rk sv = record sv {
  rerank = λ query docs k. got (rerank_by rk rk.provider query docs k);
}

module _ (Q : Option ℕ → Type 0) where
  abbrev ScoredOf : List (Candidate × ℕ) → Type 0
  ScoredOf = All (λ (x : Candidate × ℕ). Q (x.0).document_id)

  scored_docs-Of :
      (rk : Reranking) (query : List ℕ) (i : ℕ) (docs : List Candidate)
      → Of Q docs
      → ScoredOf (scored_docs rk query i docs)
  scored_docs-Of rk query i [] h = tt
  scored_docs-Of rk query i (d ∷ ds) h = (h.0, scored_docs-Of rk query (i + 1) ds h.1)

  insert_scored-Of :
      (x : Candidate × ℕ) (ys : List (Candidate × ℕ))
      → Q (x.0).document_id
      → ScoredOf ys
      → ScoredOf (insert_scored x ys)
  insert_scored-Of x [] h k = (h, tt)
  insert_scored-Of x (y ∷ ys) h k = by_test (ltb x.1 y.1) (k.0, insert_scored-Of x ys h k.1) (h, k)
    where
      by_test :
          (b : Bool)
          → ScoredOf (y ∷ insert_scored x ys)
          → ScoredOf (x ∷ y ∷ ys)
          → ScoredOf (if b then y ∷ insert_scored x ys else x ∷ y ∷ ys)
      by_test true later now = later
      by_test false later now = now

  sort_scored-Of : (xs : List (Candidate × ℕ)) → ScoredOf xs → ScoredOf (sort_scored xs)
  sort_scored-Of [] h = tt
  sort_scored-Of (x ∷ xs) h = insert_scored-Of x (sort_scored xs) h.0 (sort_scored-Of xs h.1)

  taken-Of : (n : ℕ) (xs : List (Candidate × ℕ)) → ScoredOf xs → Of Q (map score_result (take n xs))
  taken-Of zero xs h = tt
  taken-Of (suc n) [] h = tt
  taken-Of (suc n) (x ∷ xs) h = (h.0, taken-Of n xs h.1)

  score_rerank-Of :
      (rk : Reranking) (query : List ℕ) (docs : List Candidate) (k : ℕ)
      → Of Q docs
      → Of Q (score_rerank rk query docs k)
  unfolding score_rerank
  score_rerank-Of rk query docs k h =
      taken-Of _ _ (sort_scored-Of _ (scored_docs-Of rk query 0 docs h))

  at_index-Of :
      (docs : List Candidate) (i : ℕ)
      → Of Q docs
      → i < length (map (λ (c : Candidate). c.content) docs)
      → Q (at_index docs i).document_id
  at_index-Of [] i h k = absurd (omega (arith, k))
  at_index-Of (d ∷ ds) zero h k = h.0
  at_index-Of (d ∷ ds) (suc i) h k = at_index-Of ds i h.1 (omega (arith, k))

  results-Of :
      (rk : Reranking) (docs : List Candidate) (results : List (ℕ × ℕ))
      → Of Q docs
      → All (λ (r : ℕ × ℕ). r.0 < length (map (λ (c : Candidate). c.content) docs)) results
      → Of Q (map (service_result rk docs) results)
  results-Of rk docs [] h k = tt
  results-Of rk docs (r ∷ rs) h k = (at_index-Of docs r.0 h k.0, results-Of rk docs rs h k.1)

  or_score-Of :
      (rk : Reranking) (query : List ℕ) (docs : List Candidate) (k n : ℕ)
      (t : Attempt (List (ℕ × ℕ)))
      → rk.ask_service query (map (λ (c : Candidate). c.content) docs) n ≡ t
      → Of Q docs
      → Of Q (or_score rk query docs k t)
  or_score-Of rk query docs k n (got results) e h =
      results-Of rk docs results h (rk.ask_service_lem query _ n results e)
  or_score-Of rk query docs k n (threw x) e h = score_rerank-Of rk query docs k h

  cohere_rerank-Of :
      (rk : Reranking) (has_key : Bool) (query : List ℕ) (docs : List Candidate) (k : ℕ)
      → Of Q docs
      → Of Q (cohere_rerank rk has_key query docs k)
  unfolding cohere_rerank
  cohere_rerank-Of rk has_key query [] k h = tt
  cohere_rerank-Of rk true query (d ∷ ds) k h = or_score-Of rk query (d ∷ ds) k _ _ refl h
  cohere_rerank-Of rk false query (d ∷ ds) k h = score_rerank-Of rk query (d ∷ ds) k h

  -- A reranker gives chunks of the documents whose chunks it got.
  pub rerank_by-Of :
      (rk : Reranking) (p : Provider) (query : List ℕ) (docs : List Candidate) (k : ℕ)
      → Of Q docs
      → Of Q (rerank_by rk p query docs k)
  rerank_by-Of rk score_provider query docs k h = score_rerank-Of rk query docs k h
  rerank_by-Of rk (cohere_provider has_key) query docs k h =
      cohere_rerank-Of rk has_key query docs k h
