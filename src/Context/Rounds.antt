-- ===== src/Context/Rounds.antt =====
-- The rounds of the selection loop (modules/query/services/context-selector.service.js).
use doc_query.Base.{arith, ℕ, ◌≡◌, refl, false, ◌&&◌, ◌+◌, leb, ltb, List, [], ◌∷◌, length}
use doc_query.Text.{includes}
use doc_query.Context.{
  Candidate, Selection, Round, stop, next, chunk_tokens, is_seen, snippet, add_chunk, cut, Verdict,
  full, skip, admit, verdict, consider, select_loop,
}

-- The selection in a round.
abbrev pub selection : Round → Selection
selection (stop a) = a
selection (next a) = a

module _ (to_lower : List ℕ → List ℕ) (max_chunks max_tokens : ℕ) (ranked : List Candidate)
    (P : Selection → Type 0) where
  -- The conditions under which a round adds its candidate.
  pub record Admits (acc : Selection) (c : Candidate) : Type 0 where
    pub room : leb max_chunks (length acc.selected) ≡ false
    pub new_id : is_seen acc.seen_ids c.chunk_id ≡ false
    pub new_content :
        includes acc.seen_contents (snippet to_lower max_chunks max_tokens ranked c) ≡ false
    pub affordable :
        (ltb 0 (length acc.selected) && ltb max_tokens (acc.tokens + chunk_tokens c)) ≡ false

  verdict-Admits :
      (acc : Selection) (c : Candidate)
      → verdict to_lower max_chunks max_tokens ranked acc c ≡ admit
      → Admits acc c
  unfolding verdict
  verdict-Admits acc c e = record {
    room = ground arith;
    new_id = ground arith;
    new_content = ground arith;
    affordable = ground arith;
  }

  -- To keep something it is enough to keep it where the selection is cut and where a candidate that
  -- meets the conditions is added.
  pub consider-keeps :
      ((acc : Selection) → P acc → P (cut to_lower max_chunks max_tokens ranked acc))
      → ((acc : Selection) (c : Candidate)
          → Admits acc c
          → P acc
          → P (add_chunk to_lower max_chunks max_tokens ranked acc c))
      → (acc : Selection) (c : Candidate) → P acc
      → P (selection (consider to_lower max_chunks max_tokens ranked acc c))
  unfolding consider
  consider-keeps on_cut on_add acc c h =
      by_verdict (verdict to_lower max_chunks max_tokens ranked acc c) refl
    where
      by_verdict :
          (v : Verdict)
          → verdict to_lower max_chunks max_tokens ranked acc c ≡ v
          → P (
              selection (elim v [
                | full ↦ stop (cut to_lower max_chunks max_tokens ranked acc)
                | skip ↦ next acc
                | admit ↦ next (add_chunk to_lower max_chunks max_tokens ranked acc c)
              ]))
      by_verdict full e = on_cut acc h
      by_verdict skip e = h
      by_verdict admit e = on_add acc c (verdict-Admits acc c e) h

  after_round :
      (cs : List Candidate) (r : Round)
      → P (selection r)
      → ((a : Selection) → P a → P (select_loop to_lower max_chunks max_tokens ranked a cs))
      → P (elim r [ stop a ↦ a | next a ↦ select_loop to_lower max_chunks max_tokens ranked a cs ])
  after_round cs (stop a) h k = h
  after_round cs (next a) h k = k a h

  -- What every round keeps, the loop keeps.
  pub select_loop-keeps :
      ((acc : Selection) (c : Candidate)
        → P acc
        → P (selection (consider to_lower max_chunks max_tokens ranked acc c)))
      → (cs : List Candidate) (acc : Selection) → P acc
      → P (select_loop to_lower max_chunks max_tokens ranked acc cs)
  unfolding select_loop
  select_loop-keeps each [] acc h = h
  select_loop-keeps each (c ∷ cs) acc h =
      after_round cs (consider to_lower max_chunks max_tokens ranked acc c) (each acc c h)
        (λ a k. select_loop-keeps each cs a k)
