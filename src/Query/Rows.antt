-- ===== src/Query/Rows.antt =====
-- What a question is asked with, what it is answered with, and what modules/query/query.service.js
-- takes from its collaborators.
use doc_query.Base.{ℕ, Bool, Option, List, map}
use doc_query.Base.Attempt.{Attempt}
use doc_query.Roles.{Role}
use doc_query.Context.{Candidate}
use doc_query.Access.Rows.{Grant}
use doc_query.Access.Rows as AccessRows
use doc_query.Documents.Rows.{Document}
use doc_query.Search.{Allowed}
use doc_query.Search.Rows.{ChunkRow}
use doc_query.Search.Rows as SearchRows

-- `answerMode`
pub data Mode : Type 0 where
  strict balanced conversational other : Mode

-- A message of the conversation so far.
pub record Turn : Type 0 where
  pub from_user : Bool
  pub content : List ℕ

-- The parameters of `query`. A missing one is none; `allowed` is none where it is undefined.
pub record Args : Type 0 where
  pub organization_id : ℕ
  pub query : List ℕ
  pub top_k : Option ℕ
  pub document_id : Option ℕ
  pub threshold : Option ℕ
  pub history : List Turn
  pub retrieval_query : List ℕ
  pub user_id : Option ℕ
  pub user_role : Option Role
  pub allowed : Option Allowed
  pub answer_mode : Mode
  pub enable_hybrid : Bool
  pub enable_reranking : Bool

pub record Citation : Type 0 where
  pub document_id : Option ℕ
  pub chunk_id : Option ℕ
  pub document_name : Option (List ℕ)
  pub page_number : Option ℕ
  pub content : List ℕ
  pub quote : List ℕ
  pub score : ℕ

-- An answer with the parts of its metadata that are no measurements.
pub record Answer : Type 0 where
  pub answer : List ℕ
  pub citations : List Citation
  pub retrieved_chunks : ℕ
  pub document_ids : List (Option ℕ)
  pub cache_hit : Bool

-- The settings of the environment and config/rag.config.js; 0 stands for one that is not set.
pub record Settings : Type 0 where
  pub fused_top_k : ℕ
  pub vector_top_k : ℕ
  pub rerank_top_k : ℕ
  pub max_chunks : List ℕ
  pub max_tokens : List ℕ
  pub default_top_k : ℕ
  pub default_threshold : ℕ
  pub cache_ttl : ℕ

-- The rewriting of a question, the reranker (Query/Rerankers has those of the factory) and the language
-- model, which may throw; the hash and the
-- texts of identifiers and numbers, of the platform.
pub record Services : Type 0 where
  pub rewrite : List ℕ → List Turn → Attempt (List ℕ)
  pub rerank : List ℕ → List Candidate → ℕ → Attempt (List Candidate)
  pub generate : List ℕ → List ℕ → Attempt (List ℕ)
  pub to_lower : List ℕ → List ℕ
  pub sha256 : List ℕ → List ℕ
  pub uuid_text : ℕ → List ℕ
  pub decimal : ℕ → List ℕ
  -- the text of a threshold
  pub number_text : ℕ → List ℕ
  -- `metadata?.documentName`
  pub document_name : ℕ → Option (List ℕ)

-- The tables that a question reads, and the cache.
pub record State (C : Type 0) : Type 0 where
  pub documents : List Document
  pub grants : List Grant
  pub chunks : List ChunkRow
  pub cache : C

-- The columns of a document that the access service reads.
abbrev pub access_row : Document → AccessRows.Document
access_row d = record { id = d.id; organization_id = d.organization_id; user_id = d.user_id }

abbrev pub access_rows : {C : Type 0} → State C → AccessRows.State
access_rows s = record { documents = map access_row s.documents; grants = s.grants }

abbrev pub search_rows : {C : Type 0} → State C → SearchRows.State
search_rows s = record { documents = s.documents; chunks = s.chunks }
