-- ===== src/RetrievalMetrics/Ranks.antt =====
-- The bounds of the metrics, and how the ranks agree with the hits
-- (modules/evaluations/metrics/retrieval.metrics.js).
use doc_query.Base.{
  ℕ, zero, suc, ◌≡◌, ◌≤◌, refl, sym, ap, subst, ◌∙◌, ◌==◌, ==_iff, ◌+◌, ◌||◌, min, leb, Bool, false,
  Bool-cases, inl, inr, Option, none, some, List, [], ◌∷◌, length, take, any, contains, count,
  arith, length-take,
}
use doc_query.RetrievalMetrics.{
  cutoff, top, relevant, precision_at_k, recall_at_k, rank_from, reciprocal_rank, hit_rate,
}

-- No identifier comes twice.
abbrev pub Distinct : List ℕ → Type 0
Distinct [] = Unit
Distinct (x ∷ xs) = (contains xs x ≡ false) × Distinct xs

count-length : {A : Type 0} (p : A → Bool) (xs : List A) → count p xs ≤ length xs
count-length p [] = omega arith
count-length p (x ∷ xs) = ground (arith, count-length p xs)

count-absent : (y : ℕ) (xs : List ℕ) → contains xs y ≡ false → count (λ x. y == x) xs ≡ 0
count-absent y [] h = refl
count-absent y (x ∷ xs) h = ground (arith, count-absent y xs)

count-once : (y : ℕ) (xs : List ℕ) → Distinct xs → count (λ x. y == x) xs ≤ 1
count-once y [] d = omega arith
count-once y (x ∷ xs) d = elim (Bool-cases (y == x)) [
  | inl same ↦
      let e = (==_iff y x).0 same in
      let z = count-absent x xs d.0 in
      let z' : count (λ w. y == w) xs ≡ 0 = subst (λ v. count (λ w. v == w) xs ≡ 0) (sym e) z in
      rw same (ground (arith, z'))
  | inr differs ↦ rw differs (count-once y xs d.1)
]

count-or :
    {A : Type 0} (p q : A → Bool) (xs : List A)
    → count (λ x. p x || q x) xs ≤ count p xs + count q xs
count-or p q [] = omega arith
count-or p q (x ∷ xs) = ground (arith, count-or p q xs)

-- Of distinct identifiers no more are relevant than are expected.
relevant-Distinct :
    (expected xs : List ℕ) → Distinct xs → count (relevant expected) xs ≤ length expected
relevant-Distinct [] xs d = none_relevant xs
  where
    none_relevant : (xs : List ℕ) → count (relevant []) xs ≤ 0
    none_relevant [] = omega arith
    none_relevant (x ∷ xs) = none_relevant xs
relevant-Distinct (e ∷ es) xs d =
    let both = count-or (λ x. e == x) (relevant es) xs in
    omega (arith, both, count-once e xs d, relevant-Distinct es xs d)

cutoff-le : (k : Option ℕ) (n : ℕ) → cutoff k n ≤ n
cutoff-le none n = omega arith
cutoff-le (some zero) n = omega arith
cutoff-le (some (suc k)) n = omega arith

-- The precision is at most 1: no more items are relevant than are counted.
precision_at_k-bounded :
    (retrieved expected : List ℕ) (k : Option ℕ)
    → (precision_at_k retrieved expected k).numerator
      ≤ (precision_at_k retrieved expected k).denominator
precision_at_k-bounded [] [] k = omega arith
precision_at_k-bounded [] (e ∷ es) k = omega arith
precision_at_k-bounded (r ∷ rs) [] k = omega arith
precision_at_k-bounded (r ∷ rs) (e ∷ es) k =
    let c = count-length (relevant (e ∷ es)) (top k (r ∷ rs)) in
    let l = length-take (cutoff k (length (r ∷ rs))) (r ∷ rs) in
    omega (arith, c, l, cutoff-le k (length (r ∷ rs)))

-- Where no identifier comes twice among those up to the cutoff, the recall and the precision are at
-- most 1.
pub metrics_bounded :
    (retrieved expected : List ℕ) (k : Option ℕ)
    → Distinct (top k retrieved)
    → ((recall_at_k retrieved expected k).numerator
        ≤ (recall_at_k retrieved expected k).denominator)
      × ((precision_at_k retrieved expected k).numerator
          ≤ (precision_at_k retrieved expected k).denominator)
metrics_bounded retrieved expected k d =
    (recall retrieved expected d, precision_at_k-bounded retrieved expected k)
  where
    recall :
        (rs es : List ℕ)
        → Distinct (top k rs)
        → (recall_at_k rs es k).numerator ≤ (recall_at_k rs es k).denominator
    recall [] [] d = omega arith
    recall [] (e ∷ es) d = omega arith
    recall (r ∷ rs) [] d = omega arith
    recall (r ∷ rs) (e ∷ es) d = relevant-Distinct (e ∷ es) (top k (r ∷ rs)) d

-- A rank within the first `k`.
abbrev pub within : ℕ → Option ℕ → Bool
within k none = false
within k (some r) = leb r k

rank_from-above :
    (j i : ℕ) (rs expected : List ℕ) → j ≤ i → within j (rank_from i rs expected) ≡ false
rank_from-above j i [] expected h = refl
rank_from-above j i (r ∷ rs) expected h = ground (arith, rank_from-above j (i + 1) rs expected)

any-rank_from :
    (n i : ℕ) (rs expected : List ℕ)
    → any (relevant expected) (take n rs) ≡ within (i + n) (rank_from i rs expected)
any-rank_from zero i rs expected = sym (rank_from-above (i + 0) i rs expected (omega arith))
any-rank_from (suc n) i [] expected = refl
any-rank_from (suc n) i (r ∷ rs) expected =
    let e : (i + 1) + n ≡ i + suc n = omega arith in
    let rest =
      any-rank_from n (i + 1) rs expected ∙ ap (λ m. within m (rank_from (i + 1) rs expected)) e in
    ground (arith, rest)

take-cutoff : (k : ℕ) (xs : List ℕ) → take (min k (length xs)) xs ≡ take k xs
take-cutoff zero xs = let e : min 0 (length xs) ≡ 0 = omega arith in ap (λ n. take n xs) e
take-cutoff (suc k) [] = let e : min (suc k) 0 ≡ 0 = omega arith in ap (λ n. take {A = ℕ} n []) e
take-cutoff (suc k) (x ∷ xs) =
    let e : min (suc k) (suc (length xs)) ≡ suc (min k (length xs)) = omega arith in
    ap (λ n. take n (x ∷ xs)) e ∙ ap (λ r. x ∷ r) (take-cutoff k xs)

no_rank : (i : ℕ) (rs : List ℕ) → rank_from i rs [] ≡ none
no_rank i [] = refl
no_rank i (r ∷ rs) = no_rank (i + 1) rs

-- With a positive cutoff there is a hit exactly where the rank that the reciprocal rank stands for is
-- within the cutoff.
pub hit_rate-reciprocal_rank :
    (retrieved expected : List ℕ) (k : ℕ)
    → 1 ≤ k
    → hit_rate retrieved expected (some k) ≡ within k (reciprocal_rank retrieved expected)
hit_rate-reciprocal_rank retrieved expected zero h = absurd (omega (arith, h))
hit_rate-reciprocal_rank [] expected (suc k) h = refl
hit_rate-reciprocal_rank (r ∷ rs) [] (suc k) h = sym (ap (within (suc k)) (no_rank 0 (r ∷ rs)))
hit_rate-reciprocal_rank (r ∷ rs) (e ∷ es) (suc k) h =
    let same : 0 + suc k ≡ suc k = omega arith in
    ap (any (relevant (e ∷ es))) (take-cutoff (suc k) (r ∷ rs))
    ∙ any-rank_from (suc k) 0 (r ∷ rs) (e ∷ es)
    ∙ ap (λ n. within n (rank_from 0 (r ∷ rs) (e ∷ es))) same
