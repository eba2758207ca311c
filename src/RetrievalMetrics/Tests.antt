-- ===== src/RetrievalMetrics/Tests.antt =====
-- Three expected identifiers, of which two are found.
use doc_query.Base.{◌≡◌, refl, none, some, [], ◌∷◌, true}
use doc_query.RetrievalMetrics.{ratio, precision_at_k, recall_at_k, reciprocal_rank, hit_rate}

values :
    (precision_at_k (9 ∷ 1 ∷ 2 ∷ 8 ∷ []) (1 ∷ 2 ∷ 3 ∷ []) (some 3) ≡ ratio 2 3)
    × (recall_at_k (9 ∷ 1 ∷ 2 ∷ 8 ∷ []) (1 ∷ 2 ∷ 3 ∷ []) none ≡ ratio 2 3)
    × (reciprocal_rank (9 ∷ 1 ∷ 2 ∷ 8 ∷ []) (1 ∷ 2 ∷ 3 ∷ []) ≡ some 2)
    × (hit_rate (9 ∷ 1 ∷ 2 ∷ 8 ∷ []) (1 ∷ 2 ∷ 3 ∷ []) (some 2) ≡ true)
values = (refl, refl, refl, refl)

-- A document of which three chunks are found counts three times.
recall_of_repeats : recall_at_k (1 ∷ 1 ∷ 1 ∷ []) (1 ∷ []) none ≡ ratio 3 1
recall_of_repeats = refl
