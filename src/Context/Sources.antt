-- ===== src/Context/Sources.antt =====
-- Where the selected chunks come from (modules/query/services/context-selector.service.js).
use doc_query.Base.{ℕ, Option, List, [], ◌∷◌, ◌++◌, All}
use doc_query.Context.{
  Candidate, Selection, Round, Verdict, full, skip, admit, verdict, consider, select_loop,
  select_context, pushed, add_chunk, cut, nothing, first_set, stop, next,
}

module _ (Q : Option ℕ → Type 0) where
  -- Each chunk is of a document with a property.
  abbrev pub Of : List Candidate → Type 0
  Of = All (λ (c : Candidate). Q c.document_id)

  Of-snoc :
      (xs : List Candidate) (c : Candidate) → Of xs → Q c.document_id → Of (xs ++ pushed c ∷ [])
  Of-snoc [] c h q = (q, tt)
  Of-snoc (x ∷ xs) c h q = (h.0, Of-snoc xs c h.1 q)

  loop-Of :
      (to_lower : List ℕ → List ℕ) (m t : ℕ) (ranked : List Candidate) (acc : Selection)
      (cs : List Candidate)
      → Of cs
      → Of acc.selected
      → Of (select_loop to_lower m t ranked acc cs).selected
  unfolding select_loop consider
  loop-Of to_lower m t ranked acc [] hs h = h
  loop-Of to_lower m t ranked acc (c ∷ cs) hs h =
      by_verdict (λ b k. loop-Of to_lower m t ranked b cs hs.1 k)
        (verdict to_lower m t ranked acc c)
    where
      by_verdict :
          ((b : Selection) → Of b.selected → Of (select_loop to_lower m t ranked b cs).selected)
          → (v : Verdict)
          → Of
              (elim (elim v as (λ _. Round) [
                | full ↦ stop (cut to_lower m t ranked acc)
                | skip ↦ next acc
                | admit ↦ next (add_chunk to_lower m t ranked acc c)
              ])
                as (λ _. Selection) [
                  | stop a ↦ a
                  | next a ↦ select_loop to_lower m t ranked a cs
                ]).selected
      by_verdict rest full = h
      by_verdict rest skip = rest acc h
      by_verdict rest admit =
          rest (add_chunk to_lower m t ranked acc c) (Of-snoc acc.selected c h hs.0)

  pub select_context-Of :
      (to_lower : List ℕ → List ℕ) (chunk_settings token_settings : List ℕ)
      (ranked : List Candidate)
      → Of ranked
      → Of (select_context to_lower chunk_settings token_settings ranked).selected
  unfolding select_context
  select_context-Of to_lower chunk_settings token_settings ranked h =
      loop-Of to_lower (first_set chunk_settings 6) (first_set token_settings 4000) ranked nothing
        ranked h tt
