-- ===== src/Chunker/Pages.antt =====
-- The chunks of a whole document (modules/documents/services/chunker.service.js, `chunkDocument`).
use doc_query.Base.{
  ℕ, zero, suc, ◌+◌, ◌≡◌, refl, sym, ap, ◌∙◌, some, List, [], ◌∷◌, ◌++◌, map, length, length-append,
  arith, List-cases, inl, inr,
}
use mathlib.Core.Path.{ap₂}
use native.Mathlib.Nat.{zero-add, add-zero}
use doc_query.Text.{words}
use doc_query.Chunker.{
  Chunker, Chunk, Page, renumber, chunk_text, chunk_pages, chunk_document, text_windows,
  unless_empty,
}
use doc_query.Chunker.Indices.{count_up, number_chunks-indices}

abbrev pub indices : List Chunk → List ℕ
indices = map (λ k. k.chunk_index)

count_up-append : (n a b : ℕ) → count_up n a ++ count_up (n + a) b ≡ count_up n (a + b)
count_up-append n zero b = rw (zero-add, add-zero)
count_up-append n (suc a) b =
    let e : suc a + b ≡ suc (a + b) = omega arith in
    let f : n + suc a ≡ (n + 1) + a = omega arith in
    rw (e, f) (ap (λ r. n ∷ r) (count_up-append (n + 1) a b))

indices-append : (xs ys : List Chunk) → indices (xs ++ ys) ≡ indices xs ++ indices ys
indices-append [] ys = refl
indices-append (x ∷ xs) ys = ap (λ r. x.chunk_index ∷ r) (indices-append xs ys)

indices-renumber :
    (n : ℕ) (ks : List Chunk) → indices (renumber n ks) ≡ count_up n (length (renumber n ks))
unfolding renumber
indices-renumber n [] = refl
indices-renumber n (k ∷ ks) = ap (λ r. n ∷ r) (indices-renumber (n + 1) ks)

length-renumber : (n : ℕ) (ks : List Chunk) → length (renumber n ks) ≡ length ks
unfolding renumber
length-renumber n [] = refl
length-renumber n (k ∷ ks) = ap suc (length-renumber (n + 1) ks)

chunk_pages-indices :
    (c : Chunker) (n : ℕ) (ps : List Page)
    → indices (chunk_pages c n ps) ≡ count_up n (length (chunk_pages c n ps))
unfolding chunk_pages
chunk_pages-indices c n [] = refl
chunk_pages-indices c n (p ∷ ps) = elim (List-cases (words p.text)) [
  | inl empty ↦ rw (empty, chunk_pages) (chunk_pages-indices c n ps)
  | inr (w, ws, e) ↦
      rw (e, chunk_pages)
        (let chunks = renumber n (chunk_text c p.text p.page_number n) in
          let rest = chunk_pages c (n + length chunks) ps in
          indices-append chunks rest
          ∙ ap₂ ◌++◌ (indices-renumber n (chunk_text c p.text p.page_number n))
              (chunk_pages-indices c (n + length chunks) ps)
          ∙ count_up-append n (length chunks) (length rest)
          ∙ ap (count_up n) (sym (length-append chunks rest)))
]

unless_empty-indices :
    (ks ls : List Chunk)
    → indices ks ≡ count_up 0 (length ks)
    → indices ls ≡ count_up 0 (length ls)
    → indices (unless_empty ks ls) ≡ count_up 0 (length (unless_empty ks ls))
unless_empty-indices [] ls h k = k
unless_empty-indices (x ∷ ks) ls h k = h

-- The chunks of a document are numbered 0, 1, 2 and so on in the order in which they are returned,
-- across its pages, and also where the document is cut as one text.
pub chunk_document-indices :
    (c : Chunker) (text : List ℕ) (pages : List Page)
    → indices (chunk_document c text pages) ≡ count_up 0 (length (chunk_document c text pages))
unfolding chunk_document chunk_text
chunk_document-indices c text pages =
    unless_empty-indices (chunk_pages c 0 pages) (chunk_text c text (some 1) 0)
      (chunk_pages-indices c 0 pages)
      (number_chunks-indices (some 1) 0 (text_windows c (words text)))
