-- ===== src/Search/Fusion/Scores.antt =====
-- The fused score of a chunk, against a description that looks at one chunk only
-- (modules/search/services/rrf.service.js).
use doc_query.Base.{
  ℕ, suc, ◌≡◌, refl, subst, ◌∙◌, ap, sym, Bool, true, false, ◌==◌, ==_iff, Option, none, some, List,
  [], ◌∷◌, ◌++◌, first, arith, Bool-cases, Option-cases, inl, inr, is_some_eq, if◌then◌else◌,
}
use doc_query.Base.Keyed.{first-snoc}
use doc_query.Base.Table.{update_where}
use doc_query.Context.{Candidate}
use doc_query.Search.Fusion.{
  Arithmetic, Fused, ChunkMap, by_chunk, upsert, vector_entry, keyword_entry, with_vector,
  with_keyword, add_vector, add_keyword, each_rank, chunk_map,
}

abbrev score_of : Option Fused → Option ℕ
score_of none = none
score_of (some f) = some f.rrf_score

-- The score under which a chunk is in a map.
abbrev pub score_in : ℕ → ChunkMap → Option ℕ
score_in id m = score_of (first (by_chunk id) m)

first-snoc_other :
    (p : Fused → Bool) (m : ChunkMap) (new : Fused)
    → p new ≡ false
    → first p (m ++ new ∷ []) ≡ first p m
first-snoc_other p [] new h = ground arith
first-snoc_other p (f ∷ m) new h = ground (arith, first-snoc_other p m new h)

first-update_other :
    (p q : Fused → Bool) (change : Fused → Fused) (m : ChunkMap)
    → ((f : Fused) → q f ≡ true → (p f ≡ false) × (p (change f) ≡ false))
    → first p (update_where q change m) ≡ first p m
first-update_other p q change [] apart = refl
first-update_other p q change (f ∷ m) apart =
    ground (arith, apart f, first-update_other p q change m apart)

first-update_self :
    (p : Fused → Bool) (change : Fused → Fused) (m : ChunkMap) (f : Fused)
    → ((g : Fused) → p (change g) ≡ p g)
    → first p m ≡ some f
    → first p (update_where p change m) ≡ some (change f)
first-update_self p change [] f same h = ground arith
first-update_self p change (g ∷ m) f same h =
    ground (arith, same g, first-update_self p change m f same)

pub upsert-absent :
    (new : Fused) (change : Fused → Fused) (m : ChunkMap)
    → first (by_chunk new.chunk_id) m ≡ none
    → upsert new change m ≡ m ++ new ∷ []
upsert-absent new change m h = rw h

pub upsert-found :
    (new : Fused) (change : Fused → Fused) (m : ChunkMap) (f : Fused)
    → first (by_chunk new.chunk_id) m ≡ some f
    → upsert new change m ≡ update_where (by_chunk new.chunk_id) change m
upsert-found new change m f h = rw h

apart : (n id x : ℕ) → (n == id) ≡ false → (x == n) ≡ true → (x == id) ≡ false
apart n id x h e = ground arith

module _ (a : Arithmetic) (k : ℕ) where
  abbrev pub one_more : ℕ → Option ℕ → Option ℕ
  one_more rank none = some (a.share k rank)
  one_more rank (some s) = some (a.plus s (a.share k rank))

  -- The shares of one chunk, added up in the order of a list.
  pub tally : ℕ → ℕ → List Candidate → Option ℕ → Option ℕ
  tally id rank [] sum = sum
  tally id rank (c ∷ cs) sum =
      tally id (suc rank) cs (if is_some_eq c.chunk_id id then one_more rank sum else sum)

  score-upsert_self :
      (rank : ℕ) (new : Fused) (change : Fused → Fused) (m : ChunkMap)
      → new.rrf_score ≡ a.share k rank
      → ((f : Fused) → (change f).chunk_id ≡ f.chunk_id)
      → ((f : Fused) → (change f).rrf_score ≡ a.plus f.rrf_score (a.share k rank))
      → score_in new.chunk_id (upsert new change m) ≡ one_more rank (score_in new.chunk_id m)
  score-upsert_self rank new change m e same more =
      elim (Option-cases (first (by_chunk new.chunk_id) m)) [
        | inl absent ↦
            ap (score_in new.chunk_id) (upsert-absent new change m absent)
            ∙ ap score_of (first-snoc (by_chunk new.chunk_id) m new absent (ground arith))
            ∙ ap some e
            ∙ sym (ap (λ o. one_more rank (score_of o)) absent)
        | inr (f, found) ↦
            ap (score_in new.chunk_id) (upsert-found new change m f found)
            ∙ ap score_of (
                first-update_self (by_chunk new.chunk_id) change m f
                  (λ g. ap (λ c. c == new.chunk_id) (same g)) found)
            ∙ ap some (more f)
            ∙ sym (ap (λ o. one_more rank (score_of o)) found)
      ]

  score-upsert_other :
      (id : ℕ) (new : Fused) (change : Fused → Fused) (m : ChunkMap)
      → ((f : Fused) → (change f).chunk_id ≡ f.chunk_id)
      → (new.chunk_id == id) ≡ false
      → score_in id (upsert new change m) ≡ score_in id m
  score-upsert_other id new change m same ne =
      elim (Option-cases (first (by_chunk new.chunk_id) m)) [
        | inl absent ↦
            ap (score_in id) (upsert-absent new change m absent)
            ∙ ap score_of (first-snoc_other (by_chunk id) m new ne)
        | inr (f, found) ↦
            ap (score_in id) (upsert-found new change m f found)
            ∙ ap score_of (
                first-update_other (by_chunk id) (by_chunk new.chunk_id) change m (λ g h. (
                  apart new.chunk_id id g.chunk_id ne h,
                  ap (λ c. c == id) (same g) ∙ apart new.chunk_id id g.chunk_id ne h,
                )))
      ]

  -- One round of a loop, for both loops.
  score-add :
      (id rank : ℕ) (c : Candidate) (m : ChunkMap) (entry : ℕ → Fused) (change : Fused → Fused)
      → ((n : ℕ) → (entry n).chunk_id ≡ n)
      → ((n : ℕ) → (entry n).rrf_score ≡ a.share k rank)
      → ((f : Fused) → (change f).chunk_id ≡ f.chunk_id)
      → ((f : Fused) → (change f).rrf_score ≡ a.plus f.rrf_score (a.share k rank))
      → score_in id (elim c.chunk_id [ none ↦ m | some n ↦ upsert (entry n) change m ])
        ≡ (if is_some_eq c.chunk_id id then one_more rank (score_in id m) else score_in id m)
  score-add id rank c m entry change names shares same more = by_id c.chunk_id
    where
      by_id :
          (o : Option ℕ)
          → score_in id (elim o [ none ↦ m | some n ↦ upsert (entry n) change m ])
            ≡ (if is_some_eq o id then one_more rank (score_in id m) else score_in id m)
      by_id none = refl
      by_id (some n) = elim (Bool-cases (n == id)) [
        | inl e ↦ rw e (
            subst (λ i. score_in i (upsert (entry n) change m) ≡ one_more rank (score_in i m))
              (names n ∙ (==_iff n id).0 e)
              (score-upsert_self rank (entry n) change m (shares n) same more))
        | inr ne ↦
            rw ne (score-upsert_other id (entry n) change m same (ap (λ i. i == id) (names n) ∙ ne))
      ]

  score-loop_vector :
      (id rank : ℕ) (cs : List Candidate) (m : ChunkMap)
      → score_in id (each_rank (add_vector a k) rank cs m) ≡ tally id rank cs (score_in id m)
  unfolding each_rank tally
  score-loop_vector id rank [] m = refl
  score-loop_vector id rank (c ∷ cs) m =
      score-loop_vector id (suc rank) cs (add_vector a k rank c m)
      ∙ ap (tally id (suc rank) cs) (
          score-add id rank c m (λ n. vector_entry a k n rank c) (with_vector a k rank c)
            (λ n. refl) (λ n. refl) (λ f. refl) (λ f. refl))

  score-loop_keyword :
      (id rank : ℕ) (cs : List Candidate) (m : ChunkMap)
      → score_in id (each_rank (add_keyword a k) rank cs m) ≡ tally id rank cs (score_in id m)
  unfolding each_rank tally
  score-loop_keyword id rank [] m = refl
  score-loop_keyword id rank (c ∷ cs) m =
      score-loop_keyword id (suc rank) cs (add_keyword a k rank c m)
      ∙ ap (tally id (suc rank) cs) (
          score-add id rank c m (λ n. keyword_entry a k n rank c) (with_keyword a k rank c)
            (λ n. refl) (λ n. refl) (λ f. refl) (λ f. refl))

  -- A chunk is in the map exactly when it is in one of the lists, and its score is the sum of the
  -- shares of all its ranks, those of the first list before those of the second.
  pub chunk_map-scores :
      (id : ℕ) (vector keyword : List Candidate)
      → score_in id (chunk_map a k vector keyword) ≡ tally id 1 keyword (tally id 1 vector none)
  unfolding chunk_map
  chunk_map-scores id vector keyword =
      score-loop_keyword id 1 keyword (each_rank (add_vector a k) 1 vector [])
      ∙ ap (tally id 1 keyword) (score-loop_vector id 1 vector [])
