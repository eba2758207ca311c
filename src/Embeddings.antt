-- ===== src/Embeddings.antt =====
-- modules/documents/services/embedding.service.js: the vectors of the texts of a document, asked for
-- in batches. The provider (modules/documents/services/providers) is a parameter: what it answers to
-- a batch, by the number of the batch. A number of a vector stands for itself; metrics and logs are
-- left out.
pub mod Batches
mod Tests
use doc_query.Base.{
  ℕ, zero, suc, ◌==◌, ◌+◌, Bool, true, false, Option, none, some, List, [], ◌∷◌, ◌++◌, length, take,
  drop, if◌then◌else◌,
}
use doc_query.Context.{first_set}

abbrev pub Vector : Type 0
Vector = List ℕ

-- Why a call throws: the provider's error, a wrong number of vectors, or a vector of a wrong dimension;
-- no length where the value is no array.
pub data Fault : Type 0 where
  provider_failed : List ℕ → Fault
  wrong_count : ℕ → ℕ → Fault
  wrong_dimension : ℕ → Option ℕ → Fault

pub data Embedded : Type 0 where
  embedded : List Vector → Embedded
  thrown : Fault → Embedded

pub data Single : Type 0 where
  vector : Option Vector → Single
  no_vector : Fault → Single

-- What the provider gives: an error, something that is no array, or an array, of which each item is a
-- vector or none.
pub data Reply : Type 0 where
  failed : List ℕ → Reply
  malformed : Reply
  replied : List (Option Vector) → Reply

pub record Settings : Type 0 where
  pub batch_size : ℕ
  pub expected_dimension : ℕ

-- The constructor: `options.batchSize || 50` and `env.EMBEDDING_DIMENSION || 1536`.
abbrev pub settings : ℕ → ℕ → Settings
settings batch_size dimension = record {
  batch_size = first_set (batch_size ∷ []) 50;
  expected_dimension = first_set (dimension ∷ []) 1536;
}

-- `[...vs, ...rest]`, where the rest did not throw.
abbrev pub push : List Vector → Embedded → Embedded
push vs (embedded rest) = embedded (vs ++ rest)
push vs (thrown e) = thrown e

-- The check of the dimensions.
abbrev pub of_dimension : ℕ → List (Option Vector) → Embedded
of_dimension d [] = embedded []
of_dimension d (none ∷ vs) = thrown (wrong_dimension d none)
of_dimension d (some v ∷ vs) =
    let rest = push (v ∷ []) (of_dimension d vs) in
    if length v == d then rest else thrown (wrong_dimension d (some (length v)))

-- The checks of one reply, for a batch of `n` texts.
abbrev pub accepted : ℕ → ℕ → Reply → Embedded
accepted d n (failed message) = thrown (provider_failed message)
accepted d n malformed = thrown (wrong_count 0 n)
accepted d n (replied vs) =
    if length vs == n then of_dimension d vs else thrown (wrong_count (length vs) n)

abbrev pub and_rest : Embedded → Embedded → Embedded
and_rest (thrown e) rest = thrown e
and_rest (embedded vs) rest = push vs rest

module _ {T : Type 0} (provider : ℕ → List T → Reply) (st : Settings) where
  -- The loop, from the batch with this number, for as many rounds as there are texts at most.
  pub loop : ℕ → ℕ → List T → Embedded
  loop zero i texts = embedded []
  loop (suc n) i [] = embedded []
  loop (suc n) i (t ∷ texts) =
      let batch = take st.batch_size (t ∷ texts) in
      let rest = loop n (i + 1) (drop st.batch_size (t ∷ texts)) in
      and_rest (accepted st.expected_dimension (length batch) (provider i batch)) rest

  -- `generateEmbeddings`
  pub generate_embeddings : List T → Embedded
  unfolding loop
  generate_embeddings texts = loop (length texts) 0 texts

  -- `generateEmbedding`: the first of the vectors, or the error.
  abbrev first_vector : Embedded → Single
  first_vector (embedded []) = vector none
  first_vector (embedded (v ∷ vs)) = vector (some v)
  first_vector (thrown e) = no_vector e

  pub generate_embedding : T → Single
  unfolding generate_embeddings
  generate_embedding text = first_vector (generate_embeddings (text ∷ []))
