-- ===== src/Query/History.antt =====
-- Questions of several organizations, one after the other (modules/query/query.service.js).
use doc_query.Base.{
  ℕ, ◌≡◌, refl, ◌∙◌, subst, arith, Bool, true, false, ◌&&◌, ◌==◌, ==_iff, ◌⊎◌, Bool-cases, Option,
  none, some, List, [], ◌∷◌, any, All, inl, inr, if◌then◌else◌,
}
use doc_query.Base.Table.{Table}
use doc_query.Base.Attempt.{Attempt, got, threw, Results}
use doc_query.Text.{text_eq, text_eq_iff}
use doc_query.Access.Rows.{Grant}
use doc_query.Access.Rows as AccessRows
use doc_query.Documents.Rows.{Document}
use doc_query.Context.{first_set}
use doc_query.Redis.{Client, redis_get, redis_set}
use doc_query.Search.{Allowed, joins}
use doc_query.Search.Rows.{Engine}
use doc_query.Search.Scoped.{reachable}
use doc_query.Query.{
  Outcome, no_context, answered, is_multi_turn, answer_fresh, finish, cached_answer, query,
}
use doc_query.Query.Rows.{Args, Answer, Citation, Settings, Services, State}
use doc_query.Query.Prompts.{normalize_query}
use doc_query.Query.Cache.{key_of, cache_get, cache_set}
use doc_query.Query.Tenants.{UuidTexts, key_of-other_tenant}
use doc_query.Query.Rerankers.{Reranking, with_reranker}
use doc_query.Query.Scoped.{
  with_reranker-KeepsDocuments, Cites, KeepsDocuments, FreshCites, in_reach, answer_fresh-Cites,
}

-- A citation of a document of an organization.
abbrev pub of_tenant : List Document → ℕ → Option ℕ → Bool
of_tenant rows org none = false
of_tenant rows org (some id) = any (λ (d : Document). d.id == id && d.organization_id == org) rows

abbrev pub CitesTenant : List Document → ℕ → Answer → Type 0
CitesTenant rows org r = Cites (λ d. of_tenant rows org d ≡ true) r.citations

any-joins :
    (org id : ℕ) (doc : Option ℕ) (allowed : Allowed) (rows : List Document)
    → any (joins org doc allowed id) rows ≡ true
    → of_tenant rows org (some id) ≡ true
any-joins org id doc allowed [] h = absurd (ground arith)
any-joins org id doc allowed (d ∷ rows) h = elim (Bool-cases (joins org doc allowed id d)) [
  | inl e ↦ ground (arith, e)
  | inr e ↦
      let later = any-joins org id doc allowed rows (ground (arith, e, h)) in ground (arith, later)
]

reachable-of_tenant :
    (org : ℕ) (doc : Option ℕ) (allowed : Allowed) (rows : List Document) (d : Option ℕ)
    → reachable org doc allowed rows d ≡ true
    → of_tenant rows org d ≡ true
reachable-of_tenant org doc allowed rows none h = absurd (ground arith)
reachable-of_tenant org doc allowed rows (some id) h =
    any-joins org id doc allowed rows (ground (arith, h))

Cites-map :
    (P Q : Option ℕ → Type 0)
    → ((d : Option ℕ) → P d → Q d)
    → (cs : List Citation) → Cites P cs
    → Cites Q cs
Cites-map P Q f [] h = tt
Cites-map P Q f (c ∷ cs) h = (f c.document_id h.0, Cites-map P Q f cs h.1)

module _ {C : Type 0} (client : Client C Answer) (sv : Services) (st : Settings) where
  -- What is found after a storing is what was stored, under its key, or was there before.
  cache_get-set :
      (a b : Args) (p q : List ℕ) (x r : Answer) (c : C)
      → cache_get client sv st b q (cache_set client sv st a p x c).1 ≡ some r
      → ((text_eq (key_of sv st a p) (key_of sv st b q) ≡ true) × (x ≡ r))
        ⊎ (cache_get client sv st b q c ≡ some r)
  unfolding cache_get cache_set redis_get redis_set
  cache_get-set a b p q x r c h =
      elim (Bool-cases (text_eq (key_of sv st a p) (key_of sv st b q))) [
        | inl same ↦
            let ttl = first_set (st.cache_ttl ∷ []) 3600 in
            let there : client.get (key_of sv st b q) (client.set (key_of sv st a p) x ttl c)
                ≡ some x =
              subst (λ k. client.get k (client.set (key_of sv st a p) x ttl c) ≡ some x)
                ((text_eq_iff (key_of sv st a p) (key_of sv st b q)).0 same)
                (client.get-set (key_of sv st a p) x ttl c) in
            ground (arith, h, same, there, client.ready-set (key_of sv st a p) x ttl c)
        | inr other ↦
            let ttl = first_set (st.cache_ttl ∷ []) 3600 in
            ground (
              arith,
              h,
              client.ready-set (key_of sv st a p) x ttl c,
              client.get-set_other (key_of sv st a p) (key_of sv st b q) x ttl c other,
            )
      ]

  -- Every answer in the cache cites documents of its organization only.
  abbrev pub Clean : State C → Type 0
  Clean s =
      (b : Args) (q : List ℕ) (r : Answer)
      → cache_get client sv st b q s.cache ≡ some r
      → CitesTenant s.documents b.organization_id r

module _ {C : Type 0} (client : Client C Answer) (docs : Table Document)
    (access_docs : Table AccessRows.Document) (grants : Table Grant) (e : Engine) (sv : Services)
    (st : Settings) where
  -- The questions, in their order, each with what it was answered.
  abbrev pub ask_all : List Args → State C → List (Args × Attempt Answer)
  ask_all [] s = []
  ask_all (a ∷ as_) s =
      (a, (query client docs access_docs grants e sv st a s).0)
      ∷ ask_all as_ (query client docs access_docs grants e sv st a s).1

module _ {C : Type 0} (client : Client C Answer) (docs : Table Document)
    (access_docs : Table AccessRows.Document) (grants : Table Grant) (e : Engine) (sv : Services)
    (st : Settings) (reranks : KeepsDocuments sv) (texts : UuidTexts sv) where
  cached_answer-hit :
      (a : Args) (s : State C) (r : Answer)
      → cached_answer client docs access_docs grants e sv st a (normalize_query a.query) s ≡ some r
      → cache_get client sv st a (normalize_query a.query) s.cache ≡ some r
  unfolding cached_answer
  cached_answer-hit a s r h = ground (arith, h)

  -- A question keeps the cache and answers from the organization.
  record Safe (rows : List Document) (a : Args) (x : Attempt Answer × State C) : Type 0 where
    kept : x.1.documents ≡ rows
    clean : Clean client sv st x.1
    own : Results (CitesTenant rows a.organization_id) x.0

  fresh-CitesTenant :
      (a : Args) (text : List ℕ) (s : State C) (r : Answer)
      → answer_fresh client docs access_docs grants e sv st a text s ≡ got (answered r)
      → CitesTenant s.documents a.organization_id r
  fresh-CitesTenant a text s r h =
      Cites-map (λ d. in_reach client docs access_docs grants e sv st reranks a s d ≡ true)
        (λ d. of_tenant s.documents a.organization_id d ≡ true)
        (λ d k. reachable-of_tenant a.organization_id a.document_id _ s.documents d k) r.citations
        (subst
          (Results (
            FreshCites (λ d. in_reach client docs access_docs grants e sv st reranks a s d ≡ true)))
          h (answer_fresh-Cites client docs access_docs grants e sv st reranks a text s))

  stored-Clean :
      (a : Args) (text : List ℕ) (s : State C) (r : Answer)
      → CitesTenant s.documents a.organization_id r
      → Clean client sv st s
      → Clean client sv st (record s { cache = (cache_set client sv st a text r s.cache).1 })
  stored-Clean a text s r own h b q x found =
      elim (cache_get-set client sv st a b text q r x s.cache found) [
        | inl new ↦ elim (Bool-cases (a.organization_id == b.organization_id)) [
          | inl same ↦
              subst (λ org. CitesTenant s.documents org x)
                ((==_iff a.organization_id b.organization_id).0 same)
                (subst (CitesTenant s.documents a.organization_id) new.1 own)
          | inr other ↦
              let apart = key_of-other_tenant sv st a b text q texts other in
              absurd (ground (arith, new.0, apart))
        ]
        | inr old ↦ h b q x old
      ]

  finish-Safe :
      (a : Args) (text : List ℕ) (s : State C) (t : Attempt Outcome)
      → ((r : Answer) → t ≡ got (answered r) → CitesTenant s.documents a.organization_id r)
      → Clean client sv st s
      → Safe s.documents a (finish client docs access_docs grants e sv st a text s t)
  unfolding finish
  finish-Safe a text s (threw x) own h = record { kept = refl; clean = h; own = tt }
  finish-Safe a text s (got no_context) own h = record { kept = refl; clean = h; own = tt }
  finish-Safe a text s (got (answered r)) own h = by_history (is_multi_turn a.history)
    where
      by_history :
          (m : Bool)
          → Safe s.documents a (
            got r,
            if m then s else record s { cache = (cache_set client sv st a text r s.cache).1 },
          )
      by_history true = record { kept = refl; clean = h; own = own r refl }
      by_history false = record {
        kept = refl;
        clean = stored-Clean a text s r (own r refl) h;
        own = own r refl;
      }

  query-Safe :
      (a : Args) (s : State C)
      → Clean client sv st s
      → Safe s.documents a (query client docs access_docs grants e sv st a s)
  unfolding query
  query-Safe a s h =
      by_cache (cached_answer client docs access_docs grants e sv st a (normalize_query a.query) s)
        refl
    where
      by_cache :
          (o : Option Answer)
          → cached_answer client docs access_docs grants e sv st a (normalize_query a.query) s ≡ o
          → Safe s.documents a (elim o as (λ _. Attempt Answer × State C) [
            | some r ↦ (got (record r { cache_hit = true }), s)
            | none ↦
                finish client docs access_docs grants e sv st a (normalize_query a.query) s (
                  answer_fresh client docs access_docs grants e sv st a (normalize_query a.query) s)
          ])
      by_cache (some r) hit = record {
        kept = refl;
        clean = h;
        own = h a (normalize_query a.query) r (cached_answer-hit a s r hit);
      }
      by_cache none miss =
          finish-Safe a (normalize_query a.query) s _
            (λ r fresh. fresh-CitesTenant a (normalize_query a.query) s r fresh) h

  tenant_run :
      (rows : List Document) (questions : List Args) (s : State C)
      → s.documents ≡ rows
      → Clean client sv st s
      → All
          (λ (x : Args × Attempt Answer). Results (CitesTenant rows x.0.organization_id) x.1)
          (ask_all client docs access_docs grants e sv st questions s)
  tenant_run rows [] s same h = tt
  tenant_run rows (a ∷ as_) s same h =
      let step = query-Safe a s h in
      (
        subst
            (λ ds.
              Results (CitesTenant ds a.organization_id)
                (query client docs access_docs grants e sv st a s).0)
            same step.own,
        tenant_run rows as_ (query client docs access_docs grants e sv st a s).1 (step.kept ∙ same)
            step.clean,
      )

module _ {C : Type 0} (client : Client C Answer) (docs : Table Document)
    (access_docs : Table AccessRows.Document) (grants : Table Grant) (e : Engine) (sv : Services)
    (st : Settings) (rk : Reranking) where
  -- Questions of any organizations follow each other, reranked by either reranker, from a cache whose
  -- answers cite documents of their organization only, and the texts of identifiers have one length
  -- and differ: then every answer, fresh or from the cache, cites documents of the organization that
  -- asked only.
  pub ask_all-CitesTenant :
      (questions : List Args) (s : State C)
      → UuidTexts sv
      → Clean client (with_reranker rk sv) st s
      → All
          (λ (x : Args × Attempt Answer). Results (CitesTenant s.documents x.0.organization_id) x.1)
          (ask_all client docs access_docs grants e (with_reranker rk sv) st questions s)
  ask_all-CitesTenant questions s texts h =
      tenant_run client docs access_docs grants e (with_reranker rk sv) st
        (with_reranker-KeepsDocuments rk sv)
        (record { same_length = texts.same_length; distinct = texts.distinct }) s.documents
        questions s refl h
