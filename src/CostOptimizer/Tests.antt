-- ===== src/CostOptimizer/Tests.antt =====
-- Two chunks that share a sentence, and a budget that leaves one out.
use doc_query.Base.{◌≡◌, refl, [], ◌∷◌}
use doc_query.Text.{codes, text_eq, is_space}
use doc_query.CostOptimizer.{
  compress_context, sentences, sentences_from, route, factual, comparison,
}

split : sentences (codes "A b.  C? d") ≡ codes "A b." ∷ codes "C?" ∷ codes "d" ∷ []
unfolding sentences_from is_space
split = refl

once :
    compress_context (λ s. s) (codes "A b. C." ∷ codes "C. D." ∷ []) 10
    ≡ codes "A b. C." ∷ codes "D." ∷ []
unfolding compress_context sentences_from is_space text_eq
once = refl

-- The sentence of a chunk that does not fit is left out of the next chunk too.
lost :
    compress_context (λ s. s) (codes "Much too long. C." ∷ codes "C. D." ∷ []) 2 ≡ codes "D." ∷ []
unfolding compress_context sentences_from is_space text_eq
lost = refl

tiers :
    (route (codes "why") factual 500 ≡ (codes "FAST", codes "gpt-4o-mini"))
    × (route (codes "why") comparison 500 ≡ (codes "ADVANCED", codes "gpt-4o"))
tiers = (refl, refl)
