-- ===== src/Documents/Tenants.antt =====
-- What a run of the pipeline leaves alone
-- (modules/documents/services/document-processing.service.js).
use doc_query.Base.{
  ℕ, ◌≡◌, refl, ◌∙◌, ap, not, ◌==◌, List, [], ◌∷◌, some, keep, arith, Bool-cases, Option-cases, inl,
  inr,
}
use doc_query.Base.Attempt.{Attempt, got, threw}
use doc_query.Base.Table.{Table, update_where}
use doc_query.Documents.{State}
use doc_query.Documents.Processing.{
  Pipeline, prepare, begin_processing, finish_processing, process_document,
}
use doc_query.Documents.Rows.{Document, StoredChunk, by_id, of_document}
use doc_query.Documents.Storing.{prepare-IsBatch, save_chunks-others}

abbrev pub other_documents : ℕ → List Document → List Document
other_documents id rows = keep (λ d. not (by_id id d)) rows

abbrev pub other_chunks : ℕ → List StoredChunk → List StoredChunk
other_chunks id rows = keep (λ c. not (of_document id c)) rows

other_documents-update :
    (id : ℕ) (f : Document → Document) (rows : List Document)
    → ((x : Document) → (f x).id ≡ x.id)
    → other_documents id (update_where (by_id id) f rows) ≡ other_documents id rows
other_documents-update id f [] same = refl
other_documents-update id f (d ∷ rows) same =
    ground (arith, same d, other_documents-update id f rows same)

-- Nothing of another document has changed, and no job has been added.
pub record LeavesOthers (id : ℕ) (s s' : State) : Type 0 where
  pub documents : other_documents id s'.documents ≡ other_documents id s.documents
  pub chunks : other_chunks id s'.chunks ≡ other_chunks id s.chunks
  pub jobs : s'.jobs ≡ s.jobs

abbrev unchanged : (id : ℕ) (s : State) → LeavesOthers id s s
unchanged id s = record { documents = refl; chunks = refl; jobs = refl }

module _ (docs : Table Document) (chunks : Table StoredChunk) (p : Pipeline) where
  other_documents-updated :
      (id : ℕ) (f : Document → Document) (rows : List Document)
      → ((x : Document) → (f x).id ≡ x.id)
      → other_documents id (docs.update (by_id id) f rows) ≡ other_documents id rows
  other_documents-updated id f rows same =
      ap (other_documents id) (docs.update_lem (by_id id) f rows)
      ∙ other_documents-update id f rows same

  begin_processing-others :
      (id : ℕ) (s : State)
      → other_documents id (begin_processing docs chunks p id s).documents
        ≡ other_documents id s.documents
  begin_processing-others id s =
      other_documents-updated id _ _ (λ x. refl) ∙ other_documents-updated id _ _ (λ x. refl)

  finish_processing-LeavesOthers :
      (now id org : ℕ) (s : State) (d : Document) (t : Attempt (List StoredChunk × ℕ))
      → prepare p id d ≡ t
      → LeavesOthers id s
          (finish_processing docs chunks p now id org d t (begin_processing docs chunks p id s)).1
  unfolding finish_processing
  finish_processing-LeavesOthers now id org s d (got (rows, pages)) e = record {
    documents = other_documents-updated id _ _ (λ x. refl) ∙ begin_processing-others id s;
    chunks = save_chunks-others chunks id rows s.chunks (prepare-IsBatch p id d rows pages e);
    jobs = refl;
  }
  finish_processing-LeavesOthers now id org s d (threw x) e = record {
    documents = other_documents-updated id _ _ (λ x. refl) ∙ begin_processing-others id s;
    chunks = refl;
    jobs = refl;
  }

  -- Whatever its outcome, a run of the pipeline for a document touches neither the row nor the
  -- chunks of any other document, and hands no job to the queue.
  pub process_document-LeavesOthers :
      (now id org : ℕ) (s : State)
      → LeavesOthers id s (process_document docs chunks p now (some id) (some org) s).1
  unfolding process_document
  process_document-LeavesOthers now id org s =
      elim (Option-cases (docs.find (by_id id) s.documents)) [
        | inl missing ↦ rw (process_document, missing) (unchanged id s)
        | inr (d, found) ↦ elim (Bool-cases (d.organization_id == org)) [
          | inl same ↦
              rw (process_document, found, same)
                (finish_processing-LeavesOthers now id org s d (prepare p id d) refl)
          | inr other ↦ rw (process_document, found, other) (unchanged id s)
        ]
      ]
