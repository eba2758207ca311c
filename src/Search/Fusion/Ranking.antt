-- ===== src/Search/Fusion/Ranking.antt =====
-- The fused list as a ranking (modules/search/services/rrf.service.js).
use doc_query.Base.{
  ℕ, suc, ◌≡◌, refl, ◌∙◌, ap, sym, subst, Bool, true, false, ◌&&◌, ◌==◌, ==_iff, ltb, Option, none,
  some, List, [], ◌∷◌, first, count, arith, Bool-cases, Option-cases, inl, inr, if◌then◌else◌,
}
use doc_query.Base.Keyed.{Distinct, Distinct-update_where, Distinct-snoc}
use doc_query.Context.{Candidate}
use doc_query.Search.Fusion.{
  Arithmetic, Fused, ChunkMap, by_chunk, upsert, vector_entry, keyword_entry, with_vector,
  with_keyword, add_vector, add_keyword, each_rank, chunk_map, insert, sort_by_score, fused_list,
}
use doc_query.Search.Fusion.Scores.{score_in, tally, chunk_map-scores, upsert-absent, upsert-found}

abbrev DistinctChunks : ChunkMap → Type 0
DistinctChunks = Distinct (λ (f : Fused). f.chunk_id)

count-absent : (id : ℕ) (m : ChunkMap) → first (by_chunk id) m ≡ none → count (by_chunk id) m ≡ 0
count-absent id [] h = refl
count-absent id (f ∷ m) h = ground (arith, count-absent id m)

upsert-Distinct :
    (new : Fused) (change : Fused → Fused) (m : ChunkMap)
    → ((f : Fused) → (change f).chunk_id ≡ f.chunk_id)
    → DistinctChunks m
    → DistinctChunks (upsert new change m)
upsert-Distinct new change m same d = elim (Option-cases (first (by_chunk new.chunk_id) m)) [
  | inl absent ↦
      subst DistinctChunks (sym (upsert-absent new change m absent))
        (Distinct-snoc (λ (f : Fused). f.chunk_id) new m (count-absent new.chunk_id m absent) d)
  | inr (f, found) ↦
      subst DistinctChunks (sym (upsert-found new change m f found))
        (Distinct-update_where (λ (f : Fused). f.chunk_id) new.chunk_id change m same d)
]

-- How often a chunk is in a map with a score: once, with its own.
abbrev pub scored : ℕ → ℕ → Fused → Bool
scored id s f = by_chunk id f && f.rrf_score == s

abbrev pub once_if : Option ℕ → ℕ → ℕ
once_if none s = 0
once_if (some t) s = if t == s then 1 else 0

count-scored_absent :
    (id s : ℕ) (m : ChunkMap) → count (by_chunk id) m ≡ 0 → count (scored id s) m ≡ 0
count-scored_absent id s [] h = refl
count-scored_absent id s (f ∷ m) h = ground (arith, count-scored_absent id s m)

count-scored :
    (id s : ℕ) (m : ChunkMap) → DistinctChunks m → count (scored id s) m ≡ once_if (score_in id m) s
count-scored id s [] d = refl
count-scored id s (f ∷ m) d = elim (Bool-cases (f.chunk_id == id)) [
  | inl same ↦ ground (
    arith,
    count-scored_absent id s m
        (subst (λ i. count (by_chunk i) m ≡ 0) ((==_iff f.chunk_id id).0 same) d.0),
  )
  | inr other ↦ ground (arith, count-scored id s m d.1)
]

count-insert :
    (p : Fused → Bool) (f : Fused) (gs : List Fused) → count p (insert f gs) ≡ count p (f ∷ gs)
unfolding insert
count-insert p f [] = refl
count-insert p f (g ∷ gs) = ground (arith, count-insert p f gs)

count-sort : (p : Fused → Bool) (fs : List Fused) → count p (sort_by_score fs) ≡ count p fs
unfolding sort_by_score
count-sort p [] = refl
count-sort p (f ∷ fs) = count-insert p f (sort_by_score fs) ∙ ground (arith, count-sort p fs)

-- No entry is before one with a greater score.
abbrev pub BelowFirst : Fused → List Fused → Type 0
BelowFirst f [] = Unit
BelowFirst f (g ∷ gs) = ltb f.rrf_score g.rrf_score ≡ false

abbrev pub Descending : List Fused → Type 0
Descending [] = Unit
Descending (f ∷ fs) = BelowFirst f fs × Descending fs

insert-below :
    (f g : Fused) (gs : List Fused)
    → ltb f.rrf_score g.rrf_score ≡ true
    → BelowFirst g gs
    → BelowFirst g (insert f gs)
unfolding insert
insert-below f g [] h b = ground arith
insert-below f g (x ∷ gs) h b = ground arith

insert-Descending : (f : Fused) (gs : List Fused) → Descending gs → Descending (insert f gs)
unfolding insert
insert-Descending f [] d = (tt, tt)
insert-Descending f (g ∷ gs) d = elim (Bool-cases (ltb f.rrf_score g.rrf_score)) [
  | inl h ↦ rw h (insert-below f g gs h d.0, insert-Descending f gs d.1)
  | inr h ↦ rw h (h, d)
]

sort-Descending : (fs : List Fused) → Descending (sort_by_score fs)
unfolding sort_by_score
sort-Descending [] = tt
sort-Descending (f ∷ fs) = insert-Descending f (sort_by_score fs) (sort-Descending fs)

module _ (a : Arithmetic) (k : ℕ) where
  add-Distinct :
      (c : Candidate) (m : ChunkMap) (entry : ℕ → Fused) (change : Fused → Fused)
      → ((f : Fused) → (change f).chunk_id ≡ f.chunk_id)
      → DistinctChunks m
      → DistinctChunks (elim c.chunk_id [ none ↦ m | some n ↦ upsert (entry n) change m ])
  add-Distinct c m entry change same d = by_id c.chunk_id
    where
      by_id :
          (o : Option ℕ) → DistinctChunks (elim o [ none ↦ m | some n ↦ upsert (entry n) change m ])
      by_id none = d
      by_id (some n) = upsert-Distinct (entry n) change m same d

  vector-Distinct :
      (rank : ℕ) (cs : List Candidate) (m : ChunkMap)
      → DistinctChunks m
      → DistinctChunks (each_rank (add_vector a k) rank cs m)
  unfolding each_rank
  vector-Distinct rank [] m d = d
  vector-Distinct rank (c ∷ cs) m d =
      vector-Distinct (suc rank) cs (add_vector a k rank c m)
        (add-Distinct c m (λ n. vector_entry a k n rank c) (with_vector a k rank c) (λ f. refl) d)

  keyword-Distinct :
      (rank : ℕ) (cs : List Candidate) (m : ChunkMap)
      → DistinctChunks m
      → DistinctChunks (each_rank (add_keyword a k) rank cs m)
  unfolding each_rank
  keyword-Distinct rank [] m d = d
  keyword-Distinct rank (c ∷ cs) m d =
      keyword-Distinct (suc rank) cs (add_keyword a k rank c m)
        (add-Distinct c m (λ n. keyword_entry a k n rank c) (with_keyword a k rank c) (λ f. refl) d)

  -- The fused list is a ranking of the chunks of both lists: each chunk that is in one of them stands
  -- in it exactly once, with the sum of the shares of all its ranks for score, no other chunk does,
  -- and no chunk stands before one with a greater score.
  pub fused_list-ranks :
      (id s : ℕ) (vector keyword : List Candidate)
      → (count (scored id s) (fused_list a k vector keyword)
          ≡ once_if (tally a k id 1 keyword (tally a k id 1 vector none)) s)
        × Descending (fused_list a k vector keyword)
  unfolding fused_list chunk_map
  fused_list-ranks id s vector keyword = (
    (count-sort (scored id s) (chunk_map a k vector keyword)
        ∙ count-scored id s (chunk_map a k vector keyword)
            (keyword-Distinct 1 keyword _ (vector-Distinct 1 vector [] tt))
        ∙ ap (λ o. once_if o s) (chunk_map-scores a k id vector keyword)),
    sort-Descending (chunk_map a k vector keyword),
  )
