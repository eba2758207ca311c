-- ===== src/Context/Budget.antt =====
-- The bounds of the selected context (modules/query/services/context-selector.service.js).
use doc_query.Base.{
  ℕ, ◌≡◌, refl, ◌≤◌, ◌+◌, ◌⊎◌, inl, inr, false, List, [], ◌∷◌, ◌++◌, length, length-append, leb,
  ltb, ◌&&◌, arith,
}
use doc_query.Context.Rounds.{consider-keeps, select_loop-keeps}
use doc_query.Context.{
  Candidate, Selection, nothing, chunk_tokens, pushed, add_chunk, first_set, select_context,
}

pub total : List Candidate → ℕ
total [] = 0
total (c ∷ cs) = chunk_tokens c + total cs

total-append : (xs ys : List Candidate) → total (xs ++ ys) ≡ total xs + total ys
unfolding total
total-append [] ys = omega arith
total-append (x ∷ xs) ys = omega (arith, total-append xs ys)

-- Within the number of chunks and the tokens, which are those of the selected chunks; a first chunk
-- may be larger than the budget.
pub record InBudget (max_chunks max_tokens : ℕ) (s : Selection) : Type 0 where
  pub few : length s.selected ≤ max_chunks
  pub counted : s.tokens ≡ total s.selected
  pub cheap : length s.selected ≤ 1 ⊎ s.tokens ≤ max_tokens

first_or_fits :
    (xs : List Candidate) (n k t : ℕ)
    → (ltb 0 (length xs) && ltb t (n + k)) ≡ false
    → (length xs ≡ 0) ⊎ (n + k ≤ t)
first_or_fits [] n k t h = inl refl
first_or_fits (x ∷ xs) n k t h = inr (ground arith)

module _ (to_lower : List ℕ → List ℕ) (max_chunks max_tokens : ℕ) (ranked : List Candidate) where
  add_chunk-InBudget :
      (acc : Selection) (c : Candidate)
      → leb max_chunks (length acc.selected) ≡ false
      → (length acc.selected ≡ 0) ⊎ (acc.tokens + chunk_tokens c ≤ max_tokens)
      → InBudget max_chunks max_tokens acc
      → InBudget max_chunks max_tokens (add_chunk to_lower max_chunks max_tokens ranked acc c)
  unfolding total
  add_chunk-InBudget acc c room cheap b = record {
    few = ground (arith, length-append acc.selected (pushed c ∷ []));
    counted = omega (arith, b.counted, total-append acc.selected (pushed c ∷ []));
    cheap = elim cheap [
      | inl none_yet ↦ inl (omega (arith, length-append acc.selected (pushed c ∷ [])))
      | inr fits ↦ inr fits
    ];
  }

-- The selected context keeps to its settings, those that are given or else 6 chunks and 4000 tokens:
-- it has no more chunks than allowed, its count of tokens is that of its chunks, and it is within
-- the budget unless it is a single chunk.
pub select_context-InBudget :
    (to_lower : List ℕ → List ℕ) (chunk_settings token_settings : List ℕ) (ranked : List Candidate)
    → InBudget
        (first_set chunk_settings 6)
        (first_set token_settings 4000)
        (select_context to_lower chunk_settings token_settings ranked)
unfolding select_context total
select_context-InBudget to_lower chunk_settings token_settings ranked =
    let m = first_set chunk_settings 6 in
    let t = first_set token_settings 4000 in
    select_loop-keeps to_lower m t ranked (InBudget m t)
      (consider-keeps to_lower m t ranked (InBudget m t)
        (λ acc b. record { few = b.few; counted = b.counted; cheap = b.cheap })
        (λ acc c a b.
          add_chunk-InBudget to_lower m t ranked acc c a.room
            (first_or_fits acc.selected acc.tokens (chunk_tokens c) t a.affordable) b))
      ranked nothing (record { few = omega arith; counted = refl; cheap = inl (omega arith) })
