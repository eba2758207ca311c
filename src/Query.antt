-- ===== src/Query.antt =====
-- modules/query/query.service.js: a question is normalized, looked up among the cached answers,
-- restricted to the documents that the user may read, searched for, reranked, cut to the context, and
-- answered by the language model with citations. The understanding of the question (analyze), the
-- measurements and the logs are left out: nothing else reads them.
pub mod Rows
pub mod Cache
pub mod Prompts
pub mod Rerankers
pub mod Scoped
pub mod Readable
pub mod Invalidated
pub mod Tenants
pub mod Shared
pub mod History
pub mod Sample
mod Tests
use doc_query.Base.{
  ℕ, Bool, true, false, not, ◌&&◌, ◌||◌, ◌==◌, Option, none, some, List, [], ◌∷◌, map, keep, take,
  length, or_else, if◌then◌else◌,
}
use doc_query.Base.Table.{Table}
use doc_query.Base.Attempt.{Attempt, got, threw, and_then}
use doc_query.Text.{codes, trim}
use doc_query.Access.{manages, get_accessible_document_ids}
use doc_query.Access.Rows.{Grant, read}
use doc_query.Access.Rows as AccessRows
use doc_query.Documents.Rows.{Document}
use doc_query.Context.{Candidate, select_context}
use doc_query.Search.{Allowed, vector_search, hybrid_search}
use doc_query.Search.Rows.{ChunkRow, Engine}
use doc_query.Search.Rows as SearchRows
use doc_query.Redis.{Client}
use Rows.{Args, Turn, Citation, Answer, Settings, Services, State, access_rows, search_rows}
use Cache.{is_empty, set_or, cache_get, cache_set}
use Prompts.{normalize_query, build_context, build_system_prompt, build_user_prompt}

-- `validChunkIds.has(…)`
abbrev pub same_id : Option ℕ → Option ℕ → Bool
same_id none none = true
same_id (some a) (some b) = a == b
same_id _ _ = false

abbrev pub has : Option ℕ → List (Option ℕ) → Bool
has x [] = false
has x (y ∷ ys) = same_id x y || has x ys

-- `Array.from(new Set(…))`
abbrev pub unique : List (Option ℕ) → List (Option ℕ)
unique [] = []
unique (x ∷ xs) = x ∷ keep (λ y. not (same_id x y)) (unique xs)

-- What `_mapCitations` makes of a chunk.
abbrev pub citation : Services → Candidate → Citation
citation sv c = record {
  document_id = c.document_id;
  chunk_id = c.chunk_id;
  document_name = sv.document_name c.metadata;
  page_number = c.page_number;
  content = c.content;
  quote = trim (take 200 c.content);
  score = c.score;
}

pub map_citations : Services → List Candidate → List Citation
map_citations sv chunks = map (citation sv) chunks

pub validate_citations : List Citation → List Candidate → List Citation
validate_citations citations chunks =
    keep (λ (c : Citation). has c.chunk_id (map (λ (k : Candidate). k.chunk_id) chunks)) citations

-- `NO_CONTEXT_ANSWER`, without citations.
abbrev pub no_context_answer : Answer
no_context_answer = record {
  answer =
      codes "I couldn't find enough information in the uploaded documents to answer this question.";
  citations = [];
  retrieved_chunks = 0;
  document_ids = [];
  cache_hit = false;
}

-- How the search and the language model end.
pub data Outcome : Type 0 where
  no_context : Outcome
  answered : Answer → Outcome

-- `conversationHistory.length > 0`
abbrev pub is_multi_turn : List Turn → Bool
is_multi_turn [] = false
is_multi_turn (t ∷ ts) = true

abbrev pub is_nil : List Candidate → Bool
is_nil [] = true
is_nil (c ∷ cs) = false

module _ {C : Type 0} (client : Client C Answer) (docs : Table Document)
    (access_docs : Table AccessRows.Document) (grants : Table Grant) (e : Engine) (sv : Services)
    (st : Settings) where
  -- `effectiveRetrievalQuery`
  unfoldable pub effective_query : Args → List ℕ → Attempt (List ℕ)
  effective_query a query =
      if not (is_empty a.retrieval_query)
      then got (normalize_query a.retrieval_query)
      else if is_multi_turn a.history
      then sv.rewrite query a.history
      else got query

  -- `allowedDocIds`
  unfoldable pub allowed_documents : Args → State C → Allowed
  allowed_documents a s = elim a.allowed [
    | some given ↦ given
    | none ↦ elim a.user_id [
      | none ↦ none
      | some u ↦ elim a.user_role [
        | none ↦ none
        | some r ↦
            if manages r
            then none
            else get_accessible_document_ids access_docs grants u r a.organization_id read
                (access_rows s)
      ]
    ]
  ]

  unfoldable pub retrieve : Args → List ℕ → State C → Attempt (List Candidate)
  unfolding allowed_documents
  retrieve a query s =
      let allowed = allowed_documents a s in
      let threshold = or_else a.threshold st.default_threshold in
      if a.enable_hybrid
      then hybrid_search docs e a.organization_id query (set_or a.top_k st.fused_top_k)
          a.document_id threshold a.enable_hybrid allowed (search_rows s)
      else vector_search docs e a.organization_id query (set_or a.top_k st.vector_top_k)
          a.document_id threshold allowed (search_rows s)

  abbrev pub reranked : Args → List ℕ → List Candidate → Attempt (List Candidate)
  reranked a query chunks =
      if a.enable_reranking then sv.rerank query chunks st.rerank_top_k else got chunks

  pub bounded : List Candidate → List Candidate
  bounded chunks = (select_context sv.to_lower st.max_chunks st.max_tokens chunks).selected

  -- The prompts, the call of the language model and the citations.
  unfoldable pub respond : Args → List ℕ → List Candidate → Attempt Answer
  unfolding map_citations validate_citations
  respond a query chunks =
      and_then
        (sv.generate (build_system_prompt a.answer_mode)
          (build_user_prompt query (build_context sv chunks) a.history))
        λ text. got record {
          answer = text;
          citations = validate_citations (map_citations sv chunks) chunks;
          retrieved_chunks = length chunks;
          document_ids = unique (map (λ (c : Candidate). c.document_id) chunks);
          cache_hit = false;
        }

  -- What follows the retrieval.
  unfoldable pub conclude : Args → List ℕ → List ℕ → List Candidate → Attempt Outcome
  unfolding respond bounded
  conclude a query effective chunks =
      if is_nil chunks
      then got no_context
      else and_then (reranked a effective chunks)
          λ ranked. and_then (respond a query (bounded ranked)) λ r. got (answered r)

  -- A question that the cache does not answer.
  unfoldable pub answer_fresh : Args → List ℕ → State C → Attempt Outcome
  unfolding effective_query retrieve conclude
  answer_fresh a query s =
      and_then (effective_query a query)
        λ effective. and_then (retrieve a effective s) λ chunks. conclude a query effective chunks

  -- The storing of an answer, and the result.
  unfoldable pub finish : Args → List ℕ → State C → Attempt Outcome → Attempt Answer × State C
  finish a query s (threw x) = (threw x, s)
  finish a query s (got no_context) = (got no_context_answer, s)
  finish a query s (got (answered r)) = (
    got r,
    if is_multi_turn a.history
        then s
        else record s { cache = (cache_set client sv st a query r s.cache).1 },
  )

  -- The cached answer to a question that stands alone.
  unfoldable pub cached_answer : Args → List ℕ → State C → Option Answer
  cached_answer a query s =
      if is_multi_turn a.history then none else cache_get client sv st a query s.cache

  unfoldable pub query : Args → State C → Attempt Answer × State C
  unfolding cached_answer answer_fresh finish
  query a s =
      let text = normalize_query a.query in
      elim (cached_answer a text s) [
        | some r ↦ (got (record r { cache_hit = true }), s)
        | none ↦ finish a text s (answer_fresh a text s)
      ]
