-- ===== src/Search/Fusion.antt =====
-- modules/search/services/rrf.service.js: the ranks of two lists of chunks become one list. A score is
-- a double that is not negative, as the number of its bits, which has the same order; the sum, the
-- share `1.0 / (k + rank)` and the rounding to six places are parameters (of the platform).
pub mod Scores
pub mod Ranking
pub mod Sources
use doc_query.Base.{
  ℕ, suc, Bool, true, false, ◌==◌, ltb, Option, none, some, List, [], ◌∷◌, ◌++◌, map, take, first,
  present, if◌then◌else◌,
}
use doc_query.Base.Table.{update_where}
use doc_query.Context.{Candidate, first_set}

pub record Arithmetic : Type 0 where
  pub plus : ℕ → ℕ → ℕ
  pub share : ℕ → ℕ → ℕ
  pub round : ℕ → ℕ

-- A value of `chunkMap`; `source` holds what is copied from the first item of the chunk.
pub record Fused : Type 0 where
  pub chunk_id : ℕ
  pub source : Candidate
  pub vector_rank : Option ℕ
  pub keyword_rank : Option ℕ
  pub vector_score : Option ℕ
  pub keyword_score : Option ℕ
  pub rrf_score : ℕ

abbrev pub by_chunk : ℕ → Fused → Bool
by_chunk id f = f.chunk_id == id

-- `chunkMap`, in the order of insertion.
abbrev pub ChunkMap : Type 0
ChunkMap = List Fused

-- `set` where the chunk is new, else the change of the entry that is there.
abbrev pub upsert : Fused → (Fused → Fused) → ChunkMap → ChunkMap
upsert new change m =
    if present (first (by_chunk new.chunk_id) m)
    then update_where (by_chunk new.chunk_id) change m
    else m ++ new ∷ []

module _ (a : Arithmetic) (k : ℕ) where
  abbrev pub vector_entry : ℕ → ℕ → Candidate → Fused
  vector_entry id rank item = record {
    chunk_id = id;
    source = item;
    vector_rank = some rank;
    keyword_rank = none;
    vector_score = some item.score;
    keyword_score = none;
    rrf_score = a.share k rank;
  }

  abbrev pub keyword_entry : ℕ → ℕ → Candidate → Fused
  keyword_entry id rank item = record {
    chunk_id = id;
    source = item;
    vector_rank = none;
    keyword_rank = some rank;
    vector_score = none;
    keyword_score = some item.score;
    rrf_score = a.share k rank;
  }

  abbrev pub with_vector : ℕ → Candidate → Fused → Fused
  with_vector rank item f = record f {
    vector_rank = some rank;
    vector_score = some item.score;
    rrf_score = a.plus f.rrf_score (a.share k rank);
  }

  abbrev pub with_keyword : ℕ → Candidate → Fused → Fused
  with_keyword rank item f = record f {
    keyword_rank = some rank;
    keyword_score = some item.score;
    rrf_score = a.plus f.rrf_score (a.share k rank);
  }

  -- One item of each loop; an item without an identifier is passed over.
  abbrev pub add_vector : ℕ → Candidate → ChunkMap → ChunkMap
  add_vector rank item m = elim item.chunk_id [
    | none ↦ m
    | some id ↦ upsert (vector_entry id rank item) (with_vector rank item) m
  ]

  abbrev pub add_keyword : ℕ → Candidate → ChunkMap → ChunkMap
  add_keyword rank item m = elim item.chunk_id [
    | none ↦ m
    | some id ↦ upsert (keyword_entry id rank item) (with_keyword rank item) m
  ]

-- The two loops; ranks count from 1.
unfoldable pub each_rank :
    (ℕ → Candidate → ChunkMap → ChunkMap) → ℕ → List Candidate → ChunkMap → ChunkMap
each_rank add rank [] m = m
each_rank add rank (c ∷ cs) m = each_rank add (suc rank) cs (add rank c m)

unfoldable pub chunk_map : Arithmetic → ℕ → List Candidate → List Candidate → ChunkMap
unfolding each_rank
chunk_map a k vector keyword =
    each_rank (add_keyword a k) 1 keyword (each_rank (add_vector a k) 1 vector [])

-- `sort((a, b) => b.rrfScore - a.rrfScore)`, which is stable.
unfoldable pub insert : Fused → List Fused → List Fused
insert f [] = f ∷ []
insert f (g ∷ gs) =
    let later = g ∷ insert f gs in if ltb f.rrf_score g.rrf_score then later else f ∷ g ∷ gs

unfoldable pub sort_by_score : List Fused → List Fused
unfolding insert
sort_by_score [] = []
sort_by_score (f ∷ fs) = insert f (sort_by_score fs)

unfoldable pub fused_list : Arithmetic → ℕ → List Candidate → List Candidate → List Fused
unfolding chunk_map sort_by_score
fused_list a k vector keyword = sort_by_score (chunk_map a k vector keyword)

-- A result, as the later stages read it.
abbrev pub fused_result : Arithmetic → Fused → Candidate
fused_result a f = record (f.source) {
  chunk_id = some f.chunk_id;
  score = a.round f.rrf_score;
  vector_score = f.vector_score;
}

unfoldable pub fuse_results :
    Arithmetic → List ℕ → List ℕ → List Candidate → List Candidate → List Candidate
unfolding fused_list
fuse_results a k_settings top_settings vector keyword =
    map (fused_result a)
      (take (first_set top_settings 20) (fused_list a (first_set k_settings 60) vector keyword))
