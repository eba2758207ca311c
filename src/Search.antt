-- ===== src/Search.antt =====
-- modules/search: which chunks a question finds. search.repository.js queries the database,
-- search.service.js and services/keyword-search.service.js check and format, and
-- services/hybrid-search.service.js fuses both. What PostgreSQL computes (vector distance and text
-- search) and the embedding of the question are parameters, in the record of Search/Rows.
pub mod Rows
pub mod Fusion
pub mod Scoped
pub mod Found
pub mod Filter
pub mod Sample
mod Tests
use doc_query.Base.{
  ℕ, Bool, true, false, not, ◌&&◌, ◌||◌, ◌==◌, Option, none, some, List, [], ◌∷◌, map, keep, take,
  any, contains, if◌then◌else◌,
}
use doc_query.Base.Table.{Table}
use doc_query.Base.Errors.{Code, AppError}
use doc_query.Base.Attempt.{Attempt, got, threw, Failure, failure, and_then}
use doc_query.Text.{trim}
use doc_query.Context.{Candidate, first_set}
use doc_query.Documents.Rows.{Document, Status, ready, same_status, find_by_id}
use Rows.{ChunkRow, Engine, State}
use Fusion.{fuse_results}

-- `allowedDocumentIds`: null, or an array.
abbrev pub Allowed : Type 0
Allowed = Option (List ℕ)

-- `Array.isArray(allowedDocumentIds) && allowedDocumentIds.length === 0`
abbrev pub allows_nothing : Allowed → Bool
allows_nothing (some []) = true
allows_nothing _ = false

-- `documentCondition`, on the identifier of a document.
abbrev pub document_condition : Option ℕ → Allowed → ℕ → Bool
document_condition (some doc) allowed id = id == doc
document_condition none none id = true
document_condition none (some []) id = true
document_condition none (some (a ∷ ids)) id = contains (a ∷ ids) id

-- The join and the `WHERE` clause on the document of a chunk.
abbrev pub joins : ℕ → Option ℕ → Allowed → ℕ → Document → Bool
joins org doc allowed id d =
    (d.id == id && d.organization_id == org)
    && (same_status d.status ready && document_condition doc allowed d.id)

abbrev pub joined : ℕ → Option ℕ → Allowed → List Document → ChunkRow → Bool
joined org doc allowed docs c = any (joins org doc allowed c.document_id) docs

abbrev pub is_empty : List ℕ → Bool
is_empty [] = true
is_empty (c ∷ s) = false

-- A formatted row, with its score to four places.
abbrev pub hit : Engine → ℕ → ChunkRow → Candidate
hit e score c = record {
  chunk_id = some c.id;
  document_id = some c.document_id;
  content = c.content;
  score = e.round score;
  vector_score = none;
  page_number = c.page_number;
  chunk_index = c.chunk_index;
  metadata = c.metadata;
}

abbrev pub document_missing : Failure
document_missing = failure (some (AppError.not_found Code.document_not_found)) []

module _ (docs : Table Document) (e : Engine) where
  unfoldable pub find_similar_chunks : ℕ → ℕ → ℕ → ℕ → Option ℕ → Allowed → State → List ChunkRow
  find_similar_chunks org vector top_k threshold doc allowed s =
      if allows_nothing allowed
      then []
      else take top_k (
          e.nearest vector (
            keep (λ c. joined org doc allowed s.documents c && e.similar vector threshold c)
              s.chunks))

  unfoldable pub find_keyword_chunks : ℕ → List ℕ → ℕ → Option ℕ → Allowed → State → List ChunkRow
  find_keyword_chunks org query top_k doc allowed s =
      if is_empty (trim query) || allows_nothing allowed
      then []
      else take top_k (
          e.best query
            (keep (λ c. joined org doc allowed s.documents c && e.matches query c) s.chunks))

  -- The check of a document that is asked for: whether to go on.
  unfoldable pub check_document : ℕ → Option ℕ → State → Attempt Bool
  check_document org none s = got true
  check_document org (some id) s = elim (find_by_id docs id s.documents) [
    | none ↦ threw document_missing
    | some d ↦
        if d.organization_id == org
        then got (same_status d.status ready)
        else threw document_missing
  ]

  -- `SearchService.search`
  unfoldable pub vector_search :
      ℕ → List ℕ → ℕ → Option ℕ → ℕ → Allowed → State → Attempt (List Candidate)
  unfolding check_document find_similar_chunks
  vector_search org query top_k doc threshold allowed s =
      if allows_nothing allowed
      then got []
      else and_then (check_document org doc s) λ go_on.
        if go_on
        then and_then (e.embed query) (λ vector. got (
            map (λ (c : ChunkRow). hit e (e.similarity vector c) c)
              (find_similar_chunks org vector top_k threshold doc allowed s)))
        else got []

  -- `KeywordSearchService.search`
  unfoldable pub keyword_search :
      ℕ → List ℕ → ℕ → Option ℕ → Allowed → State → Attempt (List Candidate)
  unfolding check_document find_keyword_chunks
  keyword_search org query top_k doc allowed s =
      if is_empty (trim query) || allows_nothing allowed
      then got []
      else and_then (check_document org doc s) λ go_on.
        if go_on
        then got (
            map (λ (c : ChunkRow). hit e (e.text_rank query c) c)
              (find_keyword_chunks org (trim query) top_k doc allowed s))
        else got []

  -- A settled promise: its results, or none.
  abbrev pub settled : Attempt (List Candidate) → List Candidate
  settled (got hits) = hits
  settled (threw x) = []

  -- `HybridSearchService.search`, with `k` of the environment or 60 and the numbers of results of
  -- config/rag.config.js.
  unfoldable pub hybrid_search :
      ℕ → List ℕ → ℕ → Option ℕ → ℕ → Bool → Allowed → State → Attempt (List Candidate)
  unfolding vector_search keyword_search
  hybrid_search org query top_k doc threshold enable allowed s =
      if allows_nothing allowed
      then got []
      else if not enable
      then vector_search org query top_k doc threshold allowed s
      else got (
          fuse_results e.arithmetic (e.rrf_k ∷ []) (top_k ∷ [])
            (settled (vector_search org query 20 doc threshold allowed s))
            (settled (keyword_search org query 20 doc allowed s)))
