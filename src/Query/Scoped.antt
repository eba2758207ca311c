-- ===== src/Query/Scoped.antt =====
-- Which documents an answer cites (modules/query/query.service.js).
use doc_query.Base.{
  ℕ, ◌≡◌, Bool, true, Option, none, some, List, [], ◌∷◌, keep, All, arith, or_else, inl, inr,
  Bool-cases,
}
use doc_query.Base.Table.{Table}
use doc_query.Base.Attempt.{
  Attempt, got, threw, Results, Results-and_then, Results-always, Results-if,
}
use doc_query.Access.Rows.{Grant, read, of_org}
use doc_query.Access.Rows as AccessRows
use doc_query.Documents.Rows.{Document}
use doc_query.Context.{Candidate}
use doc_query.Context.Sources.{Of, select_context-Of}
use doc_query.Search.Scoped.{reachable, vector_search-InReach, hybrid_search-InReach}
use doc_query.Search.Rows.{Engine}
use doc_query.Redis.{Client}
use doc_query.Query.{
  map_citations, validate_citations, Outcome, no_context, answered, is_nil, allowed_documents,
  retrieve, reranked, bounded, respond, conclude, answer_fresh, finish, cached_answer, query,
}
use doc_query.Query.Rerankers.{Reranking, with_reranker, rerank_by-Of}
use doc_query.Query.Rows.{Args, Citation, Answer, Settings, Services, State, search_rows}
use doc_query.Query.Prompts.{normalize_query}
use doc_query.Query.Cache.{set_or}

-- Each citation is of a document with a property.
abbrev pub Cites : (Option ℕ → Type 0) → List Citation → Type 0
Cites Q = All (λ (c : Citation). Q c.document_id)

module _ (Q : Option ℕ → Type 0) where
  Cites-keep : (p : Citation → Bool) (cs : List Citation) → Cites Q cs → Cites Q (keep p cs)
  Cites-keep p [] h = tt
  Cites-keep p (c ∷ cs) h = elim (Bool-cases (p c)) [
    | inl e ↦ rw e (h.0, Cites-keep p cs h.1)
    | inr e ↦ rw e (Cites-keep p cs h.1)
  ]

  Cites-map : (sv : Services) (cs : List Candidate) → Of Q cs → Cites Q (map_citations sv cs)
  unfolding map_citations
  Cites-map sv [] h = tt
  Cites-map sv (c ∷ cs) h = (h.0, Cites-map sv cs h.1)

  abbrev pub FreshCites : Outcome → Type 0
  FreshCites no_context = Unit
  FreshCites (answered r) = Cites Q r.citations

-- What a reranker does: the chunks that it gives are of the documents of those it got.
abbrev pub KeepsDocuments : Services → Type 1
KeepsDocuments sv =
    (Q : Option ℕ → Type 0) (query : List ℕ) (chunks : List Candidate) (k : ℕ)
    → Of Q chunks
    → Results (Of Q) (sv.rerank query chunks k)

pub with_reranker-KeepsDocuments :
    (rk : Reranking) (sv : Services) → KeepsDocuments (with_reranker rk sv)
with_reranker-KeepsDocuments rk sv Q query chunks k h =
    rerank_by-Of Q rk rk.provider query chunks k h

module _ {C : Type 0} (client : Client C Answer) (docs : Table Document)
    (access_docs : Table AccessRows.Document) (grants : Table Grant) (e : Engine) (sv : Services)
    (st : Settings) (reranks : KeepsDocuments sv) where
  -- The documents that a question may find.
  abbrev pub in_reach : Args → State C → Option ℕ → Bool
  in_reach a s =
      reachable a.organization_id a.document_id
        (allowed_documents client docs access_docs grants e sv st a s) s.documents

  abbrev pub InReachOf : Args → State C → Option ℕ → Type 0
  InReachOf a s d = in_reach a s d ≡ true

  retrieve-Of :
      (a : Args) (text : List ℕ) (s : State C)
      → Results (Of (InReachOf a s)) (retrieve client docs access_docs grants e sv st a text s)
  unfolding retrieve
  retrieve-Of a text s =
      Results-if (Of (InReachOf a s)) a.enable_hybrid _ _
        (hybrid_search-InReach docs e a.organization_id text (set_or a.top_k st.fused_top_k)
          a.document_id (or_else a.threshold st.default_threshold) a.enable_hybrid
          (allowed_documents client docs access_docs grants e sv st a s) (search_rows s))
        (vector_search-InReach docs e a.organization_id text (set_or a.top_k st.vector_top_k)
          a.document_id (or_else a.threshold st.default_threshold)
          (allowed_documents client docs access_docs grants e sv st a s) (search_rows s))

  reranked-Of :
      (Q : Option ℕ → Type 0) (a : Args) (text : List ℕ) (chunks : List Candidate)
      → Of Q chunks
      → Results (Of Q) (reranked client docs access_docs grants e sv st a text chunks)
  reranked-Of Q a text chunks h =
      Results-if (Of Q) a.enable_reranking _ _ (reranks Q text chunks st.rerank_top_k h) h

  respond-Cites :
      (Q : Option ℕ → Type 0) (a : Args) (text : List ℕ) (chunks : List Candidate)
      → Of Q chunks
      → Results
          (λ (r : Answer). Cites Q r.citations)
          (respond client docs access_docs grants e sv st a text chunks)
  unfolding respond validate_citations
  respond-Cites Q a text chunks h =
      Results-always (λ (r : Answer). Cites Q r.citations) (sv.generate _ _) _
        λ answer. Cites-keep Q _ _ (Cites-map Q sv chunks h)

  conclude-Cites :
      (Q : Option ℕ → Type 0) (a : Args) (text effective : List ℕ) (chunks : List Candidate)
      → Of Q chunks
      → Results
          (FreshCites Q)
          (conclude client docs access_docs grants e sv st a text effective chunks)
  unfolding conclude bounded
  conclude-Cites Q a text effective chunks h = Results-if (FreshCites Q) (is_nil chunks) _ _ tt (
      Results-and_then (FreshCites Q) (Of Q) _ _ (reranked-Of Q a effective chunks h) λ ranked k.
        Results-and_then (FreshCites Q) (λ (r : Answer). Cites Q r.citations) _ _
          (respond-Cites Q a text _
            (select_context-Of Q sv.to_lower st.max_chunks st.max_tokens ranked k))
          λ r n. n)

  -- A fresh answer cites what was in reach.
  pub answer_fresh-Cites :
      (a : Args) (text : List ℕ) (s : State C)
      → Results
          (FreshCites (InReachOf a s))
          (answer_fresh client docs access_docs grants e sv st a text s)
  unfolding answer_fresh
  answer_fresh-Cites a text s = Results-always (FreshCites (InReachOf a s)) _ _ λ effective.
      Results-and_then (FreshCites (InReachOf a s)) (Of (InReachOf a s)) _ _
        (retrieve-Of a effective s)
        λ chunks h. conclude-Cites (InReachOf a s) a text effective chunks h

  finish-Cites :
      (Q : Option ℕ → Type 0) (a : Args) (text : List ℕ) (s : State C) (t : Attempt Outcome)
      → Results (FreshCites Q) t
      → Results
          (λ (r : Answer). Cites Q r.citations)
          (finish client docs access_docs grants e sv st a text s t).0
  unfolding finish
  finish-Cites Q a text s (threw x) h = tt
  finish-Cites Q a text s (got no_context) h = tt
  finish-Cites Q a text s (got (answered r)) h = h

  -- Where the cache does not answer, every citation of an answer is of a READY document of the
  -- organization that is asked for, or that is among the documents which the user may search.
  pub query-InReach :
      (a : Args) (s : State C)
      → cached_answer client docs access_docs grants e sv st a (normalize_query a.query) s ≡ none
      → Results
          (λ (r : Answer). Cites (λ d. in_reach a s d ≡ true) r.citations)
          (query client docs access_docs grants e sv st a s).0
  unfolding query
  query-InReach a s miss =
      by_cache (cached_answer client docs access_docs grants e sv st a text s) miss
    where
      text : List ℕ
      text = normalize_query a.query

      by_cache :
          (o : Option Answer)
          → o ≡ none
          → Results
              (λ (r : Answer). Cites (InReachOf a s) r.citations)
              (elim o as (λ _. Attempt Answer × State C) [
                | some r ↦ (got (record r { cache_hit = true }), s)
                | none ↦
                    finish client docs access_docs grants e sv st a text s
                      (answer_fresh client docs access_docs grants e sv st a text s)
              ]).0
      by_cache (some r) h = absurd (ground arith)
      by_cache none h = finish-Cites (InReachOf a s) a text s _ (answer_fresh-Cites a text s)
