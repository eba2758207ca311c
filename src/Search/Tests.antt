-- ===== src/Search/Tests.antt =====
-- Searches of the sample organization, and the theorems at them.
use doc_query.Base.{◌≡◌, refl, true, count, none, some, List, [], ◌∷◌, map}
use doc_query.Base.Attempt.{and_then, got, Results}
use doc_query.Text.{codes}
use doc_query.Context.{Candidate}
use doc_query.Search.{hit, hybrid_search, vector_search, check_document, find_similar_chunks}
use doc_query.Search.Found.{AllFound, hybrid_search-AllFound}
use doc_query.Search.Fusion.{fuse_results, fused_list, sort_by_score, insert, chunk_map, each_rank}
use doc_query.Search.Fusion.Scores.{tally}
use doc_query.Search.Fusion.Ranking.{scored, once_if, Descending, fused_list-ranks}
use doc_query.Search.Sample.{engine, docs, chunk_row, tables}

-- A user who may read the second document only finds its chunk, and finds the first one when they
-- name its document.
filtered :
    (vector_search docs engine 7 (codes "a") 5 none 0 (some (2 ∷ [])) tables
      ≡ got (hit engine 12 (chunk_row 12 2) ∷ []))
    × (vector_search docs engine 7 (codes "a") 5 (some 1) 0 (some (2 ∷ [])) tables
        ≡ got (hit engine 11 (chunk_row 11 1) ∷ []))
unfolding vector_search check_document find_similar_chunks and_then
filtered = (refl, refl)

abbrev vector_hits : List Candidate
vector_hits = hit engine 12 (chunk_row 12 2) ∷ hit engine 11 (chunk_row 11 1) ∷ []

abbrev keyword_hits : List Candidate
keyword_hits = hit engine 1 (chunk_row 11 1) ∷ []

-- The chunk that both searches found comes first.
fused :
    map
      (λ (c : Candidate). c.chunk_id)
      (fuse_results engine.arithmetic (60 ∷ []) (5 ∷ []) vector_hits keyword_hits)
    ≡ some 11 ∷ some 12 ∷ []
unfolding fuse_results fused_list sort_by_score insert chunk_map each_rank
fused = refl

fused_list-ranks_example :
    (count (scored 11 32) (fused_list engine.arithmetic 60 vector_hits keyword_hits)
      ≡ once_if
          (tally engine.arithmetic 60 11 1 keyword_hits
            (tally engine.arithmetic 60 11 1 vector_hits none))
          32)
    × Descending (fused_list engine.arithmetic 60 vector_hits keyword_hits)
fused_list-ranks_example = fused_list-ranks engine.arithmetic 60 11 32 vector_hits keyword_hits

hybrid_search-AllFound_example :
    Results
      (AllFound 7 none (some (2 ∷ [])) tables.documents)
      (hybrid_search docs engine 7 (codes "a") 5 none 0 true (some (2 ∷ [])) tables)
hybrid_search-AllFound_example =
    hybrid_search-AllFound docs engine 7 (codes "a") 5 none 0 true (some (2 ∷ [])) tables
