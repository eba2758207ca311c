-- ===== src/Documents/Storing.antt =====
-- What the storing of chunks does to the table
-- (modules/documents/repositories/document-chunk.repository.js), and the rows that the pipeline hands
-- to it.
use mathlib.Core.List.{append-nil, append_assoc}
use doc_query.Base.{
  ℕ, ◌≡◌, refl, subst, ◌∙◌, ap, ◌≤◌, Bool, true, false, not, ◌==◌, ◌++◌, List, [], ◌∷◌, length,
  count, keep, count-append, arith,
}
use doc_query.Base.Attempt.{and_then-got, got, got_inj, guard-got}
use doc_query.Base.Table.{Table}
use doc_query.Chunker.{Chunk, chunk_document}
use doc_query.Documents.Processing.{Pipeline, prepare, attach, is_empty}
use doc_query.Documents.Rows.{Document, StoredChunk, of_document, save_chunks, insert_all}

insert_all_lem :
    (chunks : Table StoredChunk) (new rows : List StoredChunk)
    → insert_all chunks new rows ≡ rows ++ new
unfolding insert_all
insert_all_lem chunks [] rows = rw append-nil
insert_all_lem chunks (c ∷ new) rows =
    insert_all_lem chunks new (chunks.create c rows)
    ∙ ap (λ r. r ++ new) (chunks.create_lem c rows)
    ∙ rw append_assoc

pub count-none :
    (id : ℕ) (rows : List StoredChunk)
    → count (of_document id) (keep (λ c. not (of_document id c)) rows) ≡ 0
count-none id [] = refl
count-none id (c ∷ rows) = ground (arith, count-none id rows)

keep-keep :
    (id : ℕ) (rows : List StoredChunk)
    → keep (λ c. not (of_document id c)) (keep (λ c. not (of_document id c)) rows)
      ≡ keep (λ c. not (of_document id c)) rows
keep-keep id [] = refl
keep-keep id (c ∷ rows) = ground (arith, keep-keep id rows)

count-attach :
    (id : ℕ) (cs : List Chunk) (vs : List ℕ)
    → count (of_document id) (attach id cs vs) ≡ length (attach id cs vs)
unfolding attach
count-attach id [] vs = refl
count-attach id (c ∷ cs) [] = refl
count-attach id (c ∷ cs) (v ∷ vs) = ground (arith, count-attach id cs vs)

pub length-attach :
    (id : ℕ) (cs : List Chunk) (vs : List ℕ)
    → length vs ≡ length cs
    → length (attach id cs vs) ≡ length cs
unfolding attach
length-attach id [] vs e = refl
length-attach id (c ∷ cs) [] e = ground arith
length-attach id (c ∷ cs) (v ∷ vs) e = ground (arith, length-attach id cs vs)

-- Rows that are stored under one document, at least one.
pub record IsBatch (id : ℕ) (rows : List StoredChunk) : Type 0 where
  pub some_row : 1 ≤ length rows
  pub all_rows : count (of_document id) rows ≡ length rows

attach-IsBatch :
    (id : ℕ) (cs : List Chunk) (vs : List ℕ)
    → is_empty cs ≡ false
    → (length vs == length cs) ≡ true
    → IsBatch id (attach id cs vs)
attach-IsBatch id [] vs ne e = ground arith
attach-IsBatch id (c ∷ cs) vs ne e = record {
  some_row = ground (arith, length-attach id (c ∷ cs) vs);
  all_rows = count-attach id (c ∷ cs) vs;
}

pub prepare-IsBatch :
    (p : Pipeline) (id : ℕ) (d : Document) (rows : List StoredChunk) (pages : ℕ)
    → prepare p id d ≡ got (rows, pages)
    → IsBatch id rows
unfolding prepare
prepare-IsBatch p id d rows pages e =
    let (_, _, e1) = and_then-got e in
    let (x, _, e2) = and_then-got e1 in
    let (_, _, e3) = and_then-got e2 in
    let (u, some_chunk, e4) = and_then-got e3 in
    let (vs, _, e5) = and_then-got e4 in
    let (w, counted, e6) = and_then-got e5 in
    let (_, _, e7) = and_then-got e6 in
    let cs = chunk_document p.chunker (p.clean_text x.text) (p.clean_pages x.pages) in
    let b =
      attach-IsBatch id cs vs (guard-got _ _ u some_chunk)
        (ground (arith, guard-got (not (length vs == length cs)) _ w counted)) in
    subst (IsBatch id) (ap (λ r. r.0) (got_inj e7)) b

pub save_chunks-count :
    (chunks : Table StoredChunk) (id : ℕ) (new rows : List StoredChunk)
    → IsBatch id new
    → count (of_document id) (save_chunks chunks id new rows) ≡ length new
unfolding insert_all
save_chunks-count chunks id [] rows b = ground (arith, b.some_row)
save_chunks-count chunks id (c ∷ new) rows b =
    ap (count (of_document id))
      (insert_all_lem chunks (c ∷ new) (chunks.delete (of_document id) rows))
    ∙ ground (
      arith,
      chunks.delete_lem (of_document id) rows,
      count-append (of_document id) (keep (λ r. not (of_document id r)) rows) (c ∷ new),
      count-none id rows,
      b.all_rows,
    )

count-le : (id : ℕ) (rows : List StoredChunk) → count (of_document id) rows ≤ length rows
count-le id [] = omega arith
count-le id (c ∷ rows) = ground (arith, count-le id rows)

keep-all_rows :
    (id : ℕ) (rows : List StoredChunk)
    → count (of_document id) rows ≡ length rows
    → keep (λ c. not (of_document id c)) rows ≡ []
keep-all_rows id [] e = refl
keep-all_rows id (c ∷ rows) e = ground (arith, count-le id rows, keep-all_rows id rows)

keep-append :
    (p : StoredChunk → Bool) (xs ys : List StoredChunk) → keep p (xs ++ ys) ≡ keep p xs ++ keep p ys
keep-append p [] ys = refl
keep-append p (x ∷ xs) ys = ground (arith, keep-append p xs ys)

-- The rows of the other documents stay.
pub save_chunks-others :
    (chunks : Table StoredChunk) (id : ℕ) (new rows : List StoredChunk)
    → IsBatch id new
    → keep (λ c. not (of_document id c)) (save_chunks chunks id new rows)
      ≡ keep (λ c. not (of_document id c)) rows
unfolding insert_all
save_chunks-others chunks id [] rows b = refl
save_chunks-others chunks id (c ∷ new) rows b =
    ap (keep (λ r. not (of_document id r))) (
      insert_all_lem chunks (c ∷ new) (chunks.delete (of_document id) rows)
      ∙ ap (λ r. r ++ c ∷ new) (chunks.delete_lem (of_document id) rows))
    ∙ keep-append (λ r. not (of_document id r)) (keep (λ r. not (of_document id r)) rows) (c ∷ new)
    ∙ ap (λ r. keep (λ r. not (of_document id r)) (keep (λ r. not (of_document id r)) rows) ++ r)
        (keep-all_rows id (c ∷ new) b.all_rows)
    ∙ rw append-nil (keep-keep id rows)
