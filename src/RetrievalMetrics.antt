-- ===== src/RetrievalMetrics.antt =====
-- modules/evaluations/metrics/retrieval.metrics.js: how good a ranked list of identifiers is. A value
-- is the fraction before it is rounded to four digits; the mean over several questions is left out.
pub mod Ranks
mod Tests
use doc_query.Base.{
  ℕ, zero, suc, ◌==◌, ◌+◌, min, ltb, Bool, true, false, Option, none, some, List, [], ◌∷◌, length,
  take, any, contains, count, if◌then◌else◌,
}

pub record Ratio : Type 0 where
  pub numerator : ℕ
  pub denominator : ℕ

abbrev pub ratio : ℕ → ℕ → Ratio
ratio n d = record { numerator = n; denominator = d }

-- `k != null && k > 0 ? Math.min(k, retrievedIds.length) : retrievedIds.length`
abbrev pub cutoff : Option ℕ → ℕ → ℕ
cutoff none n = n
cutoff (some zero) n = n
cutoff (some (suc k)) n = min (suc k) n

abbrev pub top : Option ℕ → List ℕ → List ℕ
top k retrieved = take (cutoff k (length retrieved)) retrieved

-- `expectedSet.has(id)`
abbrev pub relevant : List ℕ → ℕ → Bool
relevant expected id = contains expected id

abbrev pub relevant_count : Option ℕ → List ℕ → List ℕ → ℕ
relevant_count k retrieved expected = count (relevant expected) (top k retrieved)

abbrev pub precision_at_k : List ℕ → List ℕ → Option ℕ → Ratio
precision_at_k [] expected k = ratio 0 1
precision_at_k (r ∷ rs) [] k = ratio 0 1
precision_at_k (r ∷ rs) (e ∷ es) k =
    ratio (relevant_count k (r ∷ rs) (e ∷ es)) (cutoff k (length (r ∷ rs)))

abbrev pub recall_at_k : List ℕ → List ℕ → Option ℕ → Ratio
recall_at_k retrieved [] k = ratio 1 1
recall_at_k [] (e ∷ es) k = ratio 0 1
recall_at_k (r ∷ rs) (e ∷ es) k = ratio (relevant_count k (r ∷ rs) (e ∷ es)) (length (e ∷ es))

-- The loop of `reciprocalRank` from index `i`: the rank of the first relevant item.
abbrev pub rank_from : ℕ → List ℕ → List ℕ → Option ℕ
rank_from i [] expected = none
rank_from i (r ∷ rs) expected =
    let rest = rank_from (i + 1) rs expected in if relevant expected r then some (i + 1) else rest

-- `reciprocalRank`: one over this rank, or 0 where there is none.
abbrev pub reciprocal_rank : List ℕ → List ℕ → Option ℕ
reciprocal_rank retrieved expected = rank_from 0 retrieved expected

abbrev pub hit_rate : List ℕ → List ℕ → Option ℕ → Bool
hit_rate [] expected k = false
hit_rate (r ∷ rs) [] k = false
hit_rate (r ∷ rs) (e ∷ es) k = any (relevant (e ∷ es)) (top k (r ∷ rs))
