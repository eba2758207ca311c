-- ===== src/Versions.antt =====
-- modules/documents/services/document-version.service.js: the numbered versions of a document. Hashes
-- are texts; files and the creator of a version are left out.
mod Tests
use doc_query.Base.{
  ℕ, zero, suc, ◌≡◌, ◌≤◌, refl, ◌==◌, ==_iff, ◌+◌, ◌∙◌, ap, sym, max, Bool, true, false, Bool-cases,
  inl, inr, Option, none, some, List, [], ◌∷◌, ◌++◌, arith, keep, count, map, count-append,
  if◌then◌else◌, ltb,
}
use doc_query.Base.Table.{Table}
use mathlib.Core.List.{append-nil}

pub record Version : Type 0 where
  pub document_id : ℕ
  pub version_number : ℕ
  pub content_hash : List ℕ

abbrev pub of_document : ℕ → Version → Bool
of_document id v = v.document_id == id

-- `findFirst` with `orderBy: { versionNumber: 'desc' }`: the greatest number, 0 where there is none.
abbrev pub latest : List Version → ℕ
latest [] = 0
latest (v ∷ vs) = max v.version_number (latest vs)

module _ (versions : Table Version) where
  abbrev pub latest_of : ℕ → List Version → ℕ
  latest_of doc rows = latest (versions.find_many (of_document doc) rows)

  -- `createVersion`
  pub create_version : ℕ → List ℕ → List Version → List Version
  create_version doc hash rows =
      versions.create
        (record { document_id = doc; version_number = latest_of doc rows + 1; content_hash = hash })
        rows

  -- A document for each call, in turn.
  abbrev pub create_all : List (ℕ × List ℕ) → List Version → List Version
  create_all [] rows = rows
  create_all ((doc, hash) ∷ calls) rows = create_all calls (create_version doc hash rows)

-- The numbers of the versions of a document, oldest row first, and the numbers from 1 to `k`.
abbrev pub numbers : ℕ → List Version → List ℕ
numbers doc rows = map (λ v. v.version_number) (keep (of_document doc) rows)

abbrev pub up_to : ℕ → List ℕ
up_to zero = []
up_to (suc k) = up_to k ++ suc k ∷ []

-- The versions of each document are numbered from 1 on, in the order in which they were created.
abbrev pub Numbered : List Version → Type 0
Numbered rows = (doc : ℕ) → numbers doc rows ≡ up_to (count (of_document doc) rows)

abbrev greatest : List ℕ → ℕ
greatest [] = 0
greatest (n ∷ ns) = max n (greatest ns)

latest-greatest : (vs : List Version) → latest vs ≡ greatest (map (λ v. v.version_number) vs)
latest-greatest [] = refl
latest-greatest (v ∷ vs) = ap (max v.version_number) (latest-greatest vs)

greatest-snoc : (ns : List ℕ) (n : ℕ) → greatest (ns ++ n ∷ []) ≡ max (greatest ns) n
greatest-snoc [] n = omega arith
greatest-snoc (m ∷ ns) n = omega (arith, greatest-snoc ns n)

greatest-up_to : (k : ℕ) → greatest (up_to k) ≡ k
greatest-up_to zero = refl
greatest-up_to (suc k) = omega (arith, greatest-snoc (up_to k) (suc k), greatest-up_to k)

numbers-snoc :
    (doc : ℕ) (rows : List Version) (v : Version)
    → numbers doc (rows ++ v ∷ [])
      ≡ numbers doc rows ++ (if of_document doc v then v.version_number ∷ [] else [])
numbers-snoc doc [] v = ground arith
numbers-snoc doc (r ∷ rows) v = ground (arith, numbers-snoc doc rows v)

module _ (versions : Table Version) where
  create_version-Numbered :
      (doc : ℕ) (hash : List ℕ) (rows : List Version)
      → Numbered rows
      → Numbered (create_version versions doc hash rows)
  unfolding create_version
  create_version-Numbered doc hash rows ok other =
      let k = count (of_document doc) rows in
      let q = of_document other in
      let n = latest_of versions doc rows + 1 in
      let new : Version = record { document_id = doc; version_number = n; content_hash = hash } in
      let stored = versions.create_lem new rows in
      let counted = count-append q rows (new ∷ []) in
      ap (numbers other) stored
      ∙ numbers-snoc other rows new
      ∙ elim (Bool-cases (doc == other)) [
        | inl same ↦
            let e = (==_iff doc other).0 same in
            let last : n ≡ suc k =
              ap (λ m. m + 1)
                (ap latest (versions.find_many_lem (of_document doc) rows)
                  ∙ latest-greatest (keep (of_document doc) rows)
                  ∙ ap greatest (ok doc)
                  ∙ greatest-up_to k)
              ∙ omega arith in
            let rest : suc k ≡ count q (rows ++ new ∷ []) =
              ap (λ d. suc (count (of_document d) rows)) e ∙ ground (arith, counted, same) in
            rw same (
              ap (λ m. numbers other rows ++ m ∷ []) last
              ∙ ap (λ ns. ns ++ suc k ∷ [])
                  (ok other ∙ ap (λ d. up_to (count (of_document d) rows)) (sym e))
              ∙ ap up_to rest)
        | inr differs ↦
            let rest : count q rows ≡ count q (rows ++ new ∷ []) =
              ground (arith, counted, differs) in
            rw differs (append-nil (numbers other rows) ∙ ok other ∙ ap up_to rest)
      ]
      ∙ sym (ap (λ r. up_to (count q r)) stored)

  -- Whatever versions of whatever documents are created after each other, the versions of each
  -- document are numbered from 1 on without a gap or a repetition, in the order in which they are
  -- created, if they were so at the start.
  pub create_all-Numbered :
      (calls : List (ℕ × List ℕ)) (rows : List Version)
      → Numbered rows
      → Numbered (create_all versions calls rows)
  create_all-Numbered [] rows ok = ok
  create_all-Numbered ((doc, hash) ∷ calls) rows ok =
      create_all-Numbered calls (create_version versions doc hash rows)
        (create_version-Numbered doc hash rows ok)
