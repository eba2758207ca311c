-- ===== src/Documents/Processing.antt =====
-- The pipeline of a document: modules/documents/services/document-processing.service.js. What it is
-- built from (`options` of its constructor) is a record of parameters.
use doc_query.Base.{
  ℕ, Bool, true, false, not, ◌==◌, Option, none, some, List, [], ◌∷◌, ◌++◌, map, length, take,
  if◌then◌else◌,
}
use doc_query.Base.Attempt.{Attempt, Failure, and_then, failure, got, guard, threw}
use doc_query.Base.Table.{Table}
use doc_query.Base.Errors.{Code, AppError}
use doc_query.Text.{codes, trim}
use doc_query.Chunker.{Chunk, Chunker, Page, chunk_document}
use doc_query.Documents.Rows.{
  processing, ready, failed, processed, Document, StoredChunk, error_only, find_by_id,
  update_status, increment_attempts, save_chunks,
}
use doc_query.Documents.{State, set_documents}

pub record Extraction : Type 0 where
  pub text : List ℕ
  pub pages : List Page
  pub page_count : ℕ

-- The collaborators of the pipeline, whether the database refuses the rows, and the digits of a
-- number.
pub record Pipeline : Type 0 where
  pub chunker : Chunker
  pub file_exists : List ℕ → Bool
  pub extract : Document → Attempt Extraction
  pub clean_text : List ℕ → List ℕ
  pub clean_pages : List Page → List Page
  pub embed : List (List ℕ) → Attempt (List ℕ)
  pub refuses : List StoredChunk → Option Failure
  pub content_hash : List ℕ → Option (List ℕ)
  pub decimal : ℕ → List ℕ

-- The message about the number of embeddings.
abbrev pub mismatch : Pipeline → ℕ → ℕ → List ℕ
mismatch p vectors chunks =
    codes "Embedding count ("
    ++ (p.decimal vectors
        ++ (codes ") does not match chunk count (" ++ (p.decimal chunks ++ codes ")")))

abbrev null_if_zero : ℕ → Option ℕ
null_if_zero n = if n == 0 then none else some n

-- The chunks with their embeddings, as rows of the document.
unfoldable pub attach : ℕ → List Chunk → List ℕ → List StoredChunk
attach id (c ∷ cs) (v ∷ vs) =
    (record {
      document_id = id;
      content = c.content;
      chunk_index = c.chunk_index;
      page_number = null_if_zero c.page_number;
      metadata = c.metadata;
      embedding = v;
    })
    ∷ attach id cs vs
attach id _ _ = []

abbrev pub is_empty {ℓ} : {A : Type ℓ} → List A → Bool
is_empty [] = true
is_empty (x ∷ xs) = false

-- `extractionResult.pageCount || 1`
abbrev pub pages_or_one : ℕ → ℕ
pages_or_one n = if n == 0 then 1 else n

abbrev refusal : Option Failure → Attempt (Unit {0})
refusal none = got tt
refusal (some e) = threw e

-- The steps in the `try` up to the storing of the chunks, with the rows to store and the page
-- count.
unfoldable pub prepare : Pipeline → ℕ → Document → Attempt (List StoredChunk × ℕ)
unfolding attach
prepare p id d =
    and_then
      (guard (not (p.file_exists d.file_path)) (
        failure (some (AppError.not_found Code.file_not_found))
          (codes "Document file not found on disk storage")))
      λ _. and_then (p.extract d) λ (e : Extraction).
        and_then
          (guard (is_empty (trim e.text))
            (failure none (codes "Document contains no extractable text content")))
          λ _.
            let chunks = chunk_document p.chunker (p.clean_text e.text) (p.clean_pages e.pages) in
            and_then
              (guard (is_empty chunks)
                (failure none (codes "Document produced 0 chunks after chunking")))
              λ _. and_then (p.embed (map (λ (c : Chunk). c.content) chunks)) λ vectors.
                and_then
                  (guard (not (length vectors == length chunks))
                    (failure none (mismatch p (length vectors) (length chunks))))
                  λ _.
                    let rows = attach id chunks vectors in
                    and_then (refusal (p.refuses rows)) λ _. got (rows, pages_or_one e.page_count)

-- `error.message ? error.message.slice(0, 500) : …`
abbrev pub safe_message : Failure → List ℕ
safe_message (failure _ []) = codes "Unknown processing error"
safe_message (failure _ (c ∷ m)) = take 500 (c ∷ m)

-- The number of chunks, or what was thrown.
pub data Outcome : Type 0 where
  succeeded : ℕ → Outcome
  thrown : Failure → Outcome

-- An error of the application; its message is not modelled where nothing reads it.
abbrev pub thrown_app : AppError → Outcome
thrown_app e = thrown (failure (some e) [])

module _ (docs : Table Document) (chunks : Table StoredChunk) (p : Pipeline) where
  -- Attempts and status, before the `try`.
  abbrev pub begin_processing : ℕ → State → State
  begin_processing id =
      set_documents (λ rows.
        update_status docs id processing (error_only none) (increment_attempts docs id rows))

  -- The rest of the `try` after a success, and the `catch`.
  unfoldable pub finish_processing :
      ℕ → ℕ → ℕ → Document → Attempt (List StoredChunk × ℕ) → State → Outcome × State
  finish_processing now id org d (got (rows, pages)) s = (
    succeeded (length rows),
    record s {
      documents =
          update_status docs id ready
            (record {
              error_message = some none;
              page_count = some pages;
              processing_attempts = none;
              metadata = some (processed (length rows) (p.content_hash d.file_path) now);
            })
            s.documents;
      chunks = save_chunks chunks id rows s.chunks;
      dropped = s.dropped ++ org ∷ [];
    },
  )
  finish_processing now id org d (threw e) s = (
    thrown e,
    set_documents (update_status docs id failed (error_only (some (safe_message e)))) s,
  )

  -- `processDocument`; an identifier that is missing is none.
  unfoldable pub process_document : ℕ → Option ℕ → Option ℕ → State → Outcome × State
  unfolding prepare finish_processing
  process_document now (some id) (some org) s = elim (find_by_id docs id s.documents) [
    | none ↦ (thrown_app (AppError.not_found Code.document_not_found), s)
    | some d ↦
        let done = finish_processing now id org d (prepare p id d) (begin_processing id s) in
        if d.organization_id == org
        then done
        else (thrown_app (AppError.forbidden Code.tenant_isolation_violation), s)
  ]
  process_document now _ _ s = (thrown_app (AppError.bad_request Code.default_bad_request), s)
