-- ===== src/Search/Fusion/Sources.antt =====
-- Where the chunks of a fused list come from (modules/search/services/rrf.service.js).
use doc_query.Base.{
  ltb, ℕ, suc, zero, ◌≡◌, refl, sym, subst, Bool, true, false, ◌==◌, Option, none, some, List, [],
  ◌∷◌, ◌++◌, map, take, first, All, present, Bool-cases, inl, inr, if◌then◌else◌,
}
use doc_query.Base.Table.{update_where}
use doc_query.Context.{Candidate, first_set}
use doc_query.Search.Fusion.{
  Arithmetic, Fused, ChunkMap, upsert, vector_entry, keyword_entry, with_vector, with_keyword,
  add_vector, add_keyword, each_rank, chunk_map, insert, sort_by_score, fused_list, fused_result,
  fuse_results,
}

-- The upserts of the fusion keep what holds of every source.
module _ (Q : Option ℕ → Type 0) where
  abbrev Sources : List Fused → Type 0
  Sources = All (λ (f : Fused). Q f.source.document_id)

  Sources-snoc :
      (m : ChunkMap) (f : Fused) → Sources m → Q f.source.document_id → Sources (m ++ f ∷ [])
  Sources-snoc [] f h q = (q, tt)
  Sources-snoc (g ∷ m) f h q = (h.0, Sources-snoc m f h.1 q)

  Sources-update :
      (p : Fused → Bool) (change : Fused → Fused) (m : ChunkMap)
      → ((f : Fused) → (change f).source ≡ f.source)
      → Sources m
      → Sources (update_where p change m)
  Sources-update p change [] same h = tt
  Sources-update p change (f ∷ m) same h = elim (Bool-cases (p f)) [
    | inl e ↦ rw e (
      subst (λ (s : Candidate). Q s.document_id) (sym (same f)) h.0,
      Sources-update p change m same h.1,
    )
    | inr e ↦ rw e (h.0, Sources-update p change m same h.1)
  ]

  Sources-upsert :
      (new : Fused) (change : Fused → Fused) (m : ChunkMap)
      → ((f : Fused) → (change f).source ≡ f.source)
      → Q new.source.document_id
      → Sources m
      → Sources (upsert new change m)
  Sources-upsert new change m same q h =
      by_presence (present (first (λ f. f.chunk_id == new.chunk_id) m))
    where
      by_presence :
          (b : Bool)
          → Sources
              (if b then update_where (λ f. f.chunk_id == new.chunk_id) change m else m ++ new ∷ [])
      by_presence true = Sources-update (λ f. f.chunk_id == new.chunk_id) change m same h
      by_presence false = Sources-snoc m new h q

  Sources-each :
      (add : ℕ → Candidate → ChunkMap → ChunkMap) (rank : ℕ) (cs : List Candidate) (m : ChunkMap)
      → ((r : ℕ) (c : Candidate) (n : ChunkMap) → Q c.document_id → Sources n → Sources (add r c n))
      → All (λ (c : Candidate). Q c.document_id) cs
      → Sources m
      → Sources (each_rank add rank cs m)
  unfolding each_rank
  Sources-each add rank [] m each hs h = h
  Sources-each add rank (c ∷ cs) m each hs h =
      Sources-each add (suc rank) cs (add rank c m) each hs.1 (each rank c m hs.0 h)

  Sources-add :
      (c : Candidate) (m : ChunkMap) (entry : ℕ → Fused) (change : Fused → Fused)
      → ((n : ℕ) → (entry n).source ≡ c)
      → ((f : Fused) → (change f).source ≡ f.source)
      → Q c.document_id
      → Sources m
      → Sources (elim c.chunk_id [ none ↦ m | some n ↦ upsert (entry n) change m ])
  Sources-add c m entry change names same q h = by_id c.chunk_id
    where
      by_id : (o : Option ℕ) → Sources (elim o [ none ↦ m | some n ↦ upsert (entry n) change m ])
      by_id none = h
      by_id (some n) =
          Sources-upsert (entry n) change m same
            (subst (λ (s : Candidate). Q s.document_id) (sym (names n)) q) h

  Sources-insert :
      (f : Fused) (gs : List Fused) → Q f.source.document_id → Sources gs → Sources (insert f gs)
  unfolding insert
  Sources-insert f [] q h = (q, tt)
  Sources-insert f (g ∷ gs) q h = elim (Bool-cases (ltb f.rrf_score g.rrf_score)) [
    | inl e ↦ rw e (h.0, Sources-insert f gs q h.1)
    | inr e ↦ rw e (q, h)
  ]

  Sources-sort : (fs : List Fused) → Sources fs → Sources (sort_by_score fs)
  unfolding sort_by_score
  Sources-sort [] h = tt
  Sources-sort (f ∷ fs) h = Sources-insert f (sort_by_score fs) h.0 (Sources-sort fs h.1)

  fused_results :
      (a : Arithmetic) (n : ℕ) (fs : List Fused)
      → Sources fs
      → All (λ (c : Candidate). Q c.document_id) (map (fused_result a) (take n fs))
  fused_results a zero fs h = tt
  fused_results a (suc n) [] h = tt
  fused_results a (suc n) (f ∷ fs) h = (h.0, fused_results a n fs h.1)

  -- What holds of the documents of both lists holds of those of the fused one.
  pub fuse_results-All :
      (a : Arithmetic) (ks tops : List ℕ) (vector keyword : List Candidate)
      → All (λ (c : Candidate). Q c.document_id) vector
      → All (λ (c : Candidate). Q c.document_id) keyword
      → All (λ (c : Candidate). Q c.document_id) (fuse_results a ks tops vector keyword)
  unfolding fuse_results fused_list chunk_map
  fuse_results-All a ks tops vector keyword hv hk =
      let k = first_set ks 60 in
      fused_results a (first_set tops 20) _ (
        Sources-sort _ (
          Sources-each (add_keyword a k) 1 keyword _
            (λ r c m q h.
              Sources-add c m (λ n. keyword_entry a k n r c) (with_keyword a k r c) (λ n. refl)
                (λ f. refl) q h)
            hk
            (Sources-each (add_vector a k) 1 vector []
              (λ r c m q h.
                Sources-add c m (λ n. vector_entry a k n r c) (with_vector a k r c) (λ n. refl)
                  (λ f. refl) q h)
              hv tt)))
