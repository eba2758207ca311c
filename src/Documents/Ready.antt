-- ===== src/Documents/Ready.antt =====
-- Which documents are READY after a run of the pipeline, and their chunks
-- (modules/documents/services/document-processing.service.js).
use doc_query.Base.{
  ℕ, ◌≡◌, refl, ◌∙◌, ap, subst, sym, ◌≤◌, Bool, true, false, not, ◌&&◌, ◌==◌, some, List, [], ◌∷◌,
  ◌++◌, any, count, keep, arith, Bool-cases, Option-cases, inl, inr,
}
use doc_query.Base.Attempt.{Attempt, got, threw}
use doc_query.Base.Table.{Table, update_where}
use doc_query.Documents.{State}
use doc_query.Documents.Processing.{
  Pipeline, prepare, begin_processing, finish_processing, process_document,
}
use doc_query.Documents.Rows.{
  same_status, ready, one_more_attempt, Document, StoredChunk, by_id, of_document, save_chunks,
}
use doc_query.Documents.Storing.{IsBatch, prepare-IsBatch, save_chunks-count, save_chunks-others}

abbrev pub ready_at : ℕ → Document → Bool
ready_at id d = by_id id d && same_status d.status ready

-- A document that is READY has a chunk in the table.
abbrev pub ReadyHasChunks : State → Type 0
ReadyHasChunks s =
    (id : ℕ) → any (ready_at id) s.documents ≡ true → 1 ≤ count (of_document id) s.chunks

any-update :
    (id k : ℕ) (f : Document → Document) (rows : List Document)
    → ((x : Document) → (f x).id ≡ x.id)
    → ((x : Document) → same_status (f x).status ready ≡ true → same_status x.status ready ≡ true)
    → any (ready_at id) (update_where (by_id k) f rows) ≡ true
    → any (ready_at id) rows ≡ true
any-update id k f [] same idle h = h
any-update id k f (d ∷ rows) same idle h =
    ground (arith, same d, idle d, any-update id k f rows same idle)

any-update_other :
    (id k : ℕ) (f : Document → Document) (rows : List Document)
    → ((x : Document) → (f x).id ≡ x.id)
    → (k == id) ≡ false
    → any (ready_at id) (update_where (by_id k) f rows) ≡ any (ready_at id) rows
any-update_other id k f [] same ne = refl
any-update_other id k f (d ∷ rows) same ne =
    ground (arith, same d, any-update_other id k f rows same ne)

pub any-snoc :
    (p : Document → Bool) (rows : List Document) (d : Document)
    → p d ≡ false
    → any p (rows ++ d ∷ []) ≡ any p rows
any-snoc p [] d h = ground arith
any-snoc p (x ∷ rows) d h = ground (arith, any-snoc p rows d h)

count-keep_other :
    (id k : ℕ) (rows : List StoredChunk)
    → (k == id) ≡ false
    → count (of_document id) (keep (λ c. not (of_document k c)) rows) ≡ count (of_document id) rows
count-keep_other id k [] ne = refl
count-keep_other id k (c ∷ rows) ne = ground (arith, count-keep_other id k rows ne)

module _ (docs : Table Document) (chunks : Table StoredChunk) where
  save_chunks-count_other :
      (id k : ℕ) (new rows : List StoredChunk)
      → IsBatch k new
      → (k == id) ≡ false
      → count (of_document id) (save_chunks chunks k new rows) ≡ count (of_document id) rows
  save_chunks-count_other id k new rows b ne =
      sym (count-keep_other id k (save_chunks chunks k new rows) ne)
      ∙ ap (count (of_document id)) (save_chunks-others chunks k new rows b)
      ∙ count-keep_other id k rows ne

  pub any-updated :
      (id k : ℕ) (f : Document → Document) (rows : List Document)
      → ((x : Document) → (f x).id ≡ x.id)
      → ((x : Document) → same_status (f x).status ready ≡ true → same_status x.status ready ≡ true)
      → any (ready_at id) (docs.update (by_id k) f rows) ≡ true
      → any (ready_at id) rows ≡ true
  any-updated id k f rows same idle h =
      any-update id k f rows same idle
        (sym (ap (any (ready_at id)) (docs.update_lem (by_id k) f rows)) ∙ h)

  any-updated_other :
      (id k : ℕ) (f : Document → Document) (rows : List Document)
      → ((x : Document) → (f x).id ≡ x.id)
      → (k == id) ≡ false
      → any (ready_at id) (docs.update (by_id k) f rows) ≡ any (ready_at id) rows
  any-updated_other id k f rows same ne =
      ap (any (ready_at id)) (docs.update_lem (by_id k) f rows)
      ∙ any-update_other id k f rows same ne

  module _ (p : Pipeline) where
    finish_processing-ReadyHasChunks :
        (now id org : ℕ) (s : State) (d : Document) (t : Attempt (List StoredChunk × ℕ))
        → prepare p id d ≡ t
        → ReadyHasChunks s
        → ReadyHasChunks (finish_processing docs chunks p now id org d t s).1
    unfolding finish_processing
    finish_processing-ReadyHasChunks now id org s d (got (rows, pages)) e h k r =
        let b = prepare-IsBatch p id d rows pages e in
        elim (Bool-cases (id == k)) [
          | inl same ↦
              subst (λ n. 1 ≤ count (of_document n) (save_chunks chunks id rows s.chunks))
                (ground arith)
                (subst (λ n. 1 ≤ n) (sym (save_chunks-count chunks id rows s.chunks b)) b.some_row)
          | inr other ↦
              subst (λ n. 1 ≤ n) (sym (save_chunks-count_other k id rows s.chunks b other))
                (h k (sym (any-updated_other k id _ s.documents (λ x. refl) other) ∙ r))
        ]
    finish_processing-ReadyHasChunks now id org s d (threw x) e h k r =
        h k (any-updated k id _ s.documents (λ x. refl) (λ x e. absurd (ground arith)) r)

    begin_processing-ReadyHasChunks :
        (id : ℕ) (s : State)
        → ReadyHasChunks s
        → ReadyHasChunks (begin_processing docs chunks p id s)
    begin_processing-ReadyHasChunks id s h k r = h k (
        any-updated k id one_more_attempt s.documents (λ x. refl) (λ x e. e)
          (any-updated k id _ _ (λ x. refl) (λ x e. absurd (ground arith)) r))

    pub process_document-ReadyHasChunks :
        (now id org : ℕ) (s : State)
        → ReadyHasChunks s
        → ReadyHasChunks (process_document docs chunks p now (some id) (some org) s).1
    unfolding process_document
    process_document-ReadyHasChunks now id org s h =
        elim (Option-cases (docs.find (by_id id) s.documents)) [
          | inl missing ↦ rw (process_document, missing) h
          | inr (d, found) ↦ elim (Bool-cases (d.organization_id == org)) [
            | inl same ↦
                rw (process_document, found, same)
                  (finish_processing-ReadyHasChunks now id org (begin_processing docs chunks p id s)
                    d (prepare p id d) refl (begin_processing-ReadyHasChunks id s h))
            | inr other ↦ rw (process_document, found, other) h
          ]
        ]
