-- ===== src/Documents/Outcomes.antt =====
-- How a run of the pipeline ends (modules/documents/services/document-processing.service.js).
use doc_query.Base.{
  ◌==◌, subst, sym, ℕ, ◌≡◌, refl, ◌∙◌, ap, ◌≤◌, ◌+◌, true, List, [], ◌∷◌, none, some, first, length,
  length-take, count, arith,
}
use doc_query.Base.Attempt.{Attempt, Failure, failure, got, threw}
use doc_query.Base.Table.{Table}
use doc_query.Base.Keyed.{first_passes, first-update_where}
use doc_query.Documents.{State}
use doc_query.Documents.Processing.{
  Outcome, succeeded, thrown, Pipeline, prepare, safe_message, begin_processing, finish_processing,
  process_document,
}
use doc_query.Documents.Rows.{
  ready, failed, processing, Document, StoredChunk, error_only, with_status, one_more_attempt,
  by_id, of_document,
}
use doc_query.Documents.Storing.{IsBatch, prepare-IsBatch, save_chunks-count}

-- A run has ended well: the row is READY, with its chunks in the table; or badly: the row is FAILED
-- with a message of at most 500 characters, and the chunks are what they were. It counts as one
-- attempt either way.
pub data Settled (id : ℕ) (before : Document) (s : State) : Outcome × State → Type 0 where
  is_ready :
      (n : ℕ) (after : Document) (s' : State)
      → first (by_id id) s'.documents ≡ some after
      → after.status ≡ ready
      → after.error_message ≡ none
      → after.processing_attempts ≡ before.processing_attempts + 1
      → 1 ≤ n
      → count (of_document id) s'.chunks ≡ n
      → Settled id before s (succeeded n, s')
  is_failed :
      (e : Failure) (after : Document) (s' : State)
      → first (by_id id) s'.documents ≡ some after
      → after.status ≡ failed
      → after.error_message ≡ some (safe_message e)
      → length (safe_message e) ≤ 500
      → after.processing_attempts ≡ before.processing_attempts + 1
      → s'.chunks ≡ s.chunks
      → Settled id before s (thrown e, s')

==_refl : (n : ℕ) → (n == n) ≡ true
==_refl n = ground arith

length-safe_message : (e : Failure) → length (safe_message e) ≤ 500
length-safe_message (failure a []) = omega arith
length-safe_message (failure a (c ∷ m)) = omega (arith, length-take 500 (c ∷ m))

module _ (docs : Table Document) (chunks : Table StoredChunk) (p : Pipeline) where
  -- The row after a change that leaves the identifiers alone.
  first-updated :
      (id : ℕ) (f : Document → Document) (rows : List Document) (d : Document)
      → ((x : Document) → (f x).id ≡ x.id)
      → first (by_id id) rows ≡ some d
      → first (by_id id) (docs.update (by_id id) f rows) ≡ some (f d)
  first-updated id f rows d same found =
      ap (first (by_id id)) (docs.update_lem (by_id id) f rows)
      ∙ ground (
        arith,
        first_passes (λ (x : Document). x.id) (by_id id) rows d found,
        same d,
        first-update_where (by_id id) (by_id id) f rows (λ x. ap (λ k. k == id) (same x)),
        found,
      )

  first-begun :
      (id : ℕ) (s : State) (d : Document)
      → first (by_id id) s.documents ≡ some d
      → first (by_id id) (begin_processing docs chunks p id s).documents
        ≡ some (with_status processing (error_only none) (one_more_attempt d))
  first-begun id s d found =
      first-updated id (with_status processing (error_only none))
        (docs.update (by_id id) one_more_attempt s.documents) (one_more_attempt d) (λ x. refl)
        (first-updated id one_more_attempt s.documents d (λ x. refl) found)

  ended_well :
      (now id org pages : ℕ) (rows : List StoredChunk) (s : State) (d : Document)
      → first (by_id id) s.documents ≡ some d
      → IsBatch id rows
      → Settled id d s (
          finish_processing docs chunks p now id org d
            (got (rows, pages))
            (begin_processing docs chunks p id s))
  unfolding finish_processing
  ended_well now id org pages rows s d found b =
      Settled.is_ready (length rows) _ _
        (first-updated id _ _ _ (λ x. refl) (first-begun id s d found)) refl refl refl b.some_row
        (save_chunks-count chunks id rows s.chunks b)

  ended_badly :
      (now id org : ℕ) (e : Failure) (s : State) (d : Document)
      → first (by_id id) s.documents ≡ some d
      → Settled id d s (
          finish_processing docs chunks p now id org d
            (threw e)
            (begin_processing docs chunks p id s))
  unfolding finish_processing
  ended_badly now id org e s d found =
      Settled.is_failed e _ _ (first-updated id _ _ _ (λ x. refl) (first-begun id s d found)) refl
        refl (length-safe_message e) refl refl

  finish_processing-Settled :
      (now id org : ℕ) (s : State) (d : Document) (t : Attempt (List StoredChunk × ℕ))
      → prepare p id d ≡ t
      → first (by_id id) s.documents ≡ some d
      → Settled id d s
          (finish_processing docs chunks p now id org d t (begin_processing docs chunks p id s))
  finish_processing-Settled now id org s d (got (rows, pages)) e found =
      ended_well now id org pages rows s d found (prepare-IsBatch p id d rows pages e)
  finish_processing-Settled now id org s d (threw x) e found = ended_badly now id org x s d found

  -- Past the guards.
  process_document-begun :
      (now id : ℕ) (s : State) (d : Document)
      → first (by_id id) s.documents ≡ some d
      → process_document docs chunks p now (some id) (some d.organization_id) s
        ≡ finish_processing docs chunks p now id d.organization_id d
            (prepare p id d)
            (begin_processing docs chunks p id s)
  unfolding process_document
  process_document-begun now id s d found =
      rw (process_document, docs.find_lem (by_id id) s.documents ∙ found, ==_refl d.organization_id)

  -- A run of the pipeline on a document of the organization that the job names ends in one of two
  -- ways, never in between. It answers a number of chunks, at least one: then the row is READY
  -- without an error message, and exactly that many chunks are stored for it. Or it throws: then the
  -- row is FAILED with the message, cut to 500 characters, and the stored chunks are what they
  -- were. Either way the row counts one attempt more.
  pub process_document-Settled :
      (now id : ℕ) (s : State) (d : Document)
      → first (by_id id) s.documents ≡ some d
      → Settled id d s (process_document docs chunks p now (some id) (some d.organization_id) s)
  process_document-Settled now id s d found =
      subst (Settled id d s) (sym (process_document-begun now id s d found))
        (finish_processing-Settled now id d.organization_id s d (prepare p id d) refl found)
