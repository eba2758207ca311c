-- ===== src/Embeddings/Tests.antt =====
-- Batches of two.
use doc_query.Base.{ℕ, ◌≡◌, refl, arith, some, List, [], ◌∷◌, map}
use doc_query.Embeddings.{
  Vector, Settings, Reply, embedded, thrown, replied, wrong_count, settings, loop,
  generate_embeddings,
}
use doc_query.Embeddings.Batches.{
  Complete, each_text, generate_embeddings-Complete, generate_embeddings-each,
}

abbrev two_by_two : Settings
two_by_two = settings 2 2

abbrev pair : ℕ → Vector
pair t = t ∷ t ∷ []

abbrev one_vector : ℕ → List ℕ → Reply
one_vector i batch = replied (some (1 ∷ 2 ∷ []) ∷ [])

batches :
    (generate_embeddings (each_text pair) two_by_two (1 ∷ 2 ∷ 3 ∷ [])
      ≡ embedded ((1 ∷ 1 ∷ []) ∷ (2 ∷ 2 ∷ []) ∷ (3 ∷ 3 ∷ []) ∷ []))
    × (generate_embeddings one_vector two_by_two (1 ∷ 2 ∷ 3 ∷ []) ≡ thrown (wrong_count 1 2))
unfolding generate_embeddings loop
batches = (refl, refl)

generate_embeddings-Complete_example :
    Complete 2 3 (generate_embeddings one_vector two_by_two (1 ∷ 2 ∷ 3 ∷ []))
generate_embeddings-Complete_example =
    generate_embeddings-Complete one_vector two_by_two (1 ∷ 2 ∷ 3 ∷ []) (omega arith)

generate_embeddings-each_example :
    generate_embeddings (each_text pair) two_by_two (1 ∷ 2 ∷ 3 ∷ [])
    ≡ embedded (map pair (1 ∷ 2 ∷ 3 ∷ []))
generate_embeddings-each_example =
    generate_embeddings-each pair two_by_two (λ t. refl) (1 ∷ 2 ∷ 3 ∷ []) (omega arith)
