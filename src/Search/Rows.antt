-- ===== src/Search/Rows.antt =====
-- The tables that a search reads, and what it takes from the database and the embedding service.
use doc_query.Base.{ℕ, ◌≡◌, Bool, Option, List, count}
use doc_query.Base.Attempt.{Attempt}
use doc_query.Documents.Rows.{Document}
use doc_query.Search.Fusion.{Arithmetic}

-- `model DocumentChunk` of prisma/schema.prisma; the embedding is a number that stands for it.
pub record ChunkRow : Type 0 where
  pub id : ℕ
  pub document_id : ℕ
  pub content : List ℕ
  pub chunk_index : ℕ
  pub page_number : Option ℕ
  pub metadata : ℕ
  pub embedding : ℕ

pub record State : Type 0 where
  pub documents : List Document
  pub chunks : List ChunkRow

pub record Engine : Type 0 where
  pub embed : List ℕ → Attempt ℕ
  -- `1 - (embedding <=> vector) >= threshold`, for a chunk that has an embedding
  pub similar : ℕ → ℕ → ChunkRow → Bool
  pub similarity : ℕ → ChunkRow → ℕ
  -- `to_tsvector(…) @@ plainto_tsquery(…)`
  pub matches : List ℕ → ChunkRow → Bool
  pub text_rank : List ℕ → ChunkRow → ℕ
  -- `ORDER BY`: the same rows in another order
  pub nearest : ℕ → List ChunkRow → List ChunkRow
  pub best : List ℕ → List ChunkRow → List ChunkRow
  pub nearest_lem :
      (v : ℕ) (p : ChunkRow → Bool) (rows : List ChunkRow) → count p (nearest v rows) ≡ count p rows
  pub best_lem :
      (q : List ℕ) (p : ChunkRow → Bool) (rows : List ChunkRow)
      → count p (best q rows) ≡ count p rows
  -- `toFixed(4)`
  pub round : ℕ → ℕ
  pub arithmetic : Arithmetic
  pub rrf_k : ℕ
