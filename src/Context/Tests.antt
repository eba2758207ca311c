-- ===== src/Context/Tests.antt =====
-- A selection from six chunks, five of one document and one of another document whose text repeats
-- the first, with a lower case that changes nothing; and the theorems at that input.
use doc_query.Base.{ℕ, ◌≡◌, refl, true, none, some, List, [], ◌∷◌, map, length}
use doc_query.Text.{codes, text_eq, is_space}
use doc_query.Context.{
  Candidate, first_set, select_context, select_loop, consider, verdict, gives_way, count_of,
}
use doc_query.Context.Budget.{InBudget, select_context-InBudget}

abbrev chunk : ℕ → ℕ → List ℕ → Candidate
chunk id doc text = record {
  chunk_id = some id;
  document_id = some doc;
  content = text;
  score = 9;
  vector_score = none;
  page_number = none;
  chunk_index = 0;
  metadata = 0;
}

abbrev ranked : List Candidate
ranked =
    chunk 1 1 (codes "a")
    ∷ chunk 2 1 (codes "b")
    ∷ chunk 3 1 (codes "c")
    ∷ chunk 4 2 (codes " a")
    ∷ chunk 5 1 (codes "d")
    ∷ chunk 6 1 (codes "e")
    ∷ []

abbrev lowered : List ℕ → List ℕ
lowered s = s

-- The fourth chunk, which has been passed over as a repeat already, still makes the last two give
-- way.
passed_over :
    map (λ (c : Candidate). c.chunk_id) (select_context lowered [] [] ranked).selected
    ≡ some 1 ∷ some 2 ∷ some 3 ∷ []
unfolding select_context select_loop consider verdict gives_way count_of text_eq is_space
passed_over = refl

cut_off :
    ((select_context lowered (2 ∷ []) [] ranked).truncated ≡ true)
    × ((select_context lowered (2 ∷ []) [] ranked).tokens ≡ 42)
    × (length (select_context lowered (0 ∷ 4 ∷ []) (30 ∷ []) ranked).selected ≡ 1)
unfolding select_context select_loop consider verdict gives_way count_of text_eq is_space
cut_off = (refl, refl, refl)

select_context-InBudget_example :
    InBudget (first_set (2 ∷ []) 6) (first_set [] 4000) (select_context lowered (2 ∷ []) [] ranked)
select_context-InBudget_example = select_context-InBudget lowered (2 ∷ []) [] ranked
