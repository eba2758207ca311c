-- ===== src/Documents/Lifecycle.antt =====
-- The documents of a table over time: uploads, requests for processing and runs of the pipeline in
-- any order (modules/documents/document.service.js,
-- modules/documents/services/document-processing.service.js).
use doc_query.Base.{
  ℕ, ◌≡◌, refl, ◌∙◌, ap, subst, sym, ◌≤◌, Bool, true, Option, none, some, any, count, arith,
  Bool-cases, Option-cases, ◌⊎◌, inl, inr,
}
use doc_query.Base.Table.{Table}
use doc_query.Documents.{State, File, upload, is_active, request_processing, uploaded_row}
use doc_query.Documents.Processing.{Pipeline, process_document}
use doc_query.Documents.Rows.{
  queued, error_only, with_status, Document, StoredChunk, by_id, by_id_and_org, of_document,
}
use doc_query.Documents.Ready.{
  ReadyHasChunks, ready_at, any-snoc, any-updated, process_document-ReadyHasChunks,
}

module _ (docs : Table Document) (chunks : Table StoredChunk) where
  upload-ReadyHasChunks :
      (new_id now org user notes : ℕ) (file : Option File) (s : State)
      → ReadyHasChunks s
      → ReadyHasChunks (upload docs new_id now org user file notes s).1
  unfolding upload
  upload-ReadyHasChunks new_id now org user notes none s h = h
  upload-ReadyHasChunks new_id now org user notes (some f) s h = λ id r. h id (
      sym (
        ap (any (ready_at id))
          (docs.create_lem (uploaded_row new_id now org user f notes) s.documents)
        ∙ any-snoc (ready_at id) s.documents (uploaded_row new_id now org user f notes)
            (ground arith))
      ∙ r)

  request_processing-cases :
      (q : Bool) (id org : ℕ) (s : State)
      → ((request_processing docs q id org s).1.documents ≡ s.documents)
        ⊎ ((request_processing docs q id org s).1.documents
            ≡ docs.update (by_id id) (with_status queued (error_only none)) s.documents)
  unfolding request_processing
  request_processing-cases q id org s =
      elim (Option-cases (docs.find (by_id_and_org id org) s.documents)) [
        | inl missing ↦ inl (ground arith)
        | inr (d, found) ↦ elim (Bool-cases (is_active d.status)) [
          | inl busy ↦ inl (ground arith)
          | inr idle ↦ inr (ground arith)
        ]
      ]

  -- A request changes a status to QUEUED, or nothing.
  request_processing-ready :
      (q : Bool) (id org k : ℕ) (s : State)
      → any (ready_at k) (request_processing docs q id org s).1.documents ≡ true
      → any (ready_at k) s.documents ≡ true
  request_processing-ready q id org k s r = elim (request_processing-cases q id org s) [
    | inl same ↦ sym (ap (any (ready_at k)) same) ∙ r
    | inr changed ↦
        any-updated docs chunks k id (with_status queued (error_only none)) s.documents (λ x. refl)
          (λ x e. absurd (ground arith)) (sym (ap (any (ready_at k)) changed) ∙ r)
  ]

  request_processing-chunks :
      (q : Bool) (id org : ℕ) (s : State) → (request_processing docs q id org s).1.chunks ≡ s.chunks
  unfolding request_processing
  request_processing-chunks q id org s = ground arith

  -- One call of the service or one job of the worker, with any pipeline.
  pub data Step (s : State) : State → Type 0 where
    by_upload :
        (new_id now org user notes : ℕ) (file : Option File)
        → Step s (upload docs new_id now org user file notes s).1
    by_request : (q : Bool) (id org : ℕ) → Step s (request_processing docs q id org s).1
    by_run :
        (p : Pipeline) (now id org : ℕ)
        → Step s (process_document docs chunks p now (some id) (some org) s).1

  pub data Reach (s : State) : State → Type 0 where
    start_here : Reach s s
    then_step : {t u : State} → Reach s t → Step t u → Reach s u

  Step-ReadyHasChunks : {s t : State} → Step s t → ReadyHasChunks s → ReadyHasChunks t
  Step-ReadyHasChunks {s} (by_upload new_id now org user notes file) h =
      upload-ReadyHasChunks new_id now org user notes file s h
  Step-ReadyHasChunks {s} (by_request q id org) h = λ k r.
      subst (λ rows. 1 ≤ count (of_document k) rows) (sym (request_processing-chunks q id org s))
        (h k (request_processing-ready q id org k s r))
  Step-ReadyHasChunks {s} (by_run p now id org) h =
      process_document-ReadyHasChunks docs chunks p now id org s h

  -- Whatever uploads, requests for processing and runs of a pipeline follow each other, in any order
  -- and with any outcome: if every document that was READY at the start had a chunk in the table,
  -- then every document that is READY at the end has one.
  pub Reach-ReadyHasChunks : {s t : State} → Reach s t → ReadyHasChunks s → ReadyHasChunks t
  Reach-ReadyHasChunks start_here h = h
  Reach-ReadyHasChunks (then_step before step) h =
      Step-ReadyHasChunks step (Reach-ReadyHasChunks before h)
