-- ===== src/Context/Repeats.antt =====
-- No text and no chunk comes twice (modules/query/services/context-selector.service.js).
use doc_query.Base.{ℕ, ◌≡◌, refl, ◌∙◌, ap, subst, sym, false, ◌||◌, ◌++◌, List, [], ◌∷◌, map, arith}
use doc_query.Text.{includes, text_eq, text_eq_iff}
use doc_query.Context.{
  Candidate, Selection, nothing, pushed, snippet, add_chunk, add_id, cut, first_set, select_context,
}
use doc_query.Context.Rounds.{consider-keeps, select_loop-keeps}

abbrev pub NoRepeats : List (List ℕ) → Type 0
NoRepeats [] = Unit
NoRepeats (x ∷ xs) = (includes xs x ≡ false) × NoRepeats xs

includes-snoc :
    (xs : List (List ℕ)) (y a : List ℕ) → includes (xs ++ y ∷ []) a ≡ (includes xs a || text_eq y a)
includes-snoc [] y a = ground arith
includes-snoc (x ∷ xs) y a = ground (arith, includes-snoc xs y a)

NoRepeats-snoc :
    (xs : List (List ℕ)) (y : List ℕ)
    → includes xs y ≡ false
    → NoRepeats xs
    → NoRepeats (xs ++ y ∷ [])
NoRepeats-snoc [] y h n = (refl, tt)
NoRepeats-snoc (x ∷ xs) y h n = (
  includes-snoc xs y x ∙ ground (arith, text_eq_iff x y, text_eq_iff y x, n.0),
  NoRepeats-snoc xs y (ground arith) n.1,
)

map-snoc :
    (f : Candidate → List ℕ) (xs : List Candidate) (y : Candidate)
    → map f (xs ++ y ∷ []) ≡ map f xs ++ f y ∷ []
map-snoc f [] y = refl
map-snoc f (x ∷ xs) y = ap (λ r. f x ∷ r) (map-snoc f xs y)

module _ (to_lower : List ℕ → List ℕ) (m t : ℕ) (ranked : List Candidate) where
  -- The texts seen are those of the selected chunks, each once.
  record Tracked (s : Selection) : Type 0 where
    seen : s.seen_contents ≡ map (snippet to_lower m t ranked) s.selected
    fresh : NoRepeats s.seen_contents

  add_chunk-Tracked :
      (acc : Selection) (c : Candidate)
      → includes acc.seen_contents (snippet to_lower m t ranked c) ≡ false
      → Tracked acc
      → Tracked (add_chunk to_lower m t ranked acc c)
  add_chunk-Tracked acc c new h = record {
    seen =
        ap (λ r. r ++ snippet to_lower m t ranked c ∷ []) h.seen
        ∙ sym (map-snoc (snippet to_lower m t ranked) acc.selected (pushed c));
    fresh = NoRepeats-snoc acc.seen_contents (snippet to_lower m t ranked c) new h.fresh;
  }

  loop-Tracked :
      (cs : List Candidate) → Tracked (doc_query.Context.select_loop to_lower m t ranked nothing cs)
  loop-Tracked cs =
      select_loop-keeps to_lower m t ranked Tracked
        (consider-keeps to_lower m t ranked Tracked
          (λ acc h. record { seen = h.seen; fresh = h.fresh })
          (λ acc c a h. add_chunk-Tracked acc c a.new_content h))
        cs nothing (record { seen = refl; fresh = tt })

-- No two selected chunks have the same text, where texts are compared by their first 150
-- characters, trimmed and in lower case.
pub select_context-NoRepeats :
    (to_lower : List ℕ → List ℕ) (chunk_settings token_settings : List ℕ) (ranked : List Candidate)
    → NoRepeats (
        map
          (snippet to_lower (first_set chunk_settings 6) (first_set token_settings 4000) ranked)
          (select_context to_lower chunk_settings token_settings ranked).selected)
unfolding select_context
select_context-NoRepeats to_lower chunk_settings token_settings ranked =
    let h =
      loop-Tracked to_lower (first_set chunk_settings 6) (first_set token_settings 4000) ranked
        ranked in
    subst NoRepeats h.seen h.fresh
