-- ===== src/Query/Readable.antt =====
-- What a user who does not manage the organization may read of what is cited
-- (modules/query/query.service.js with modules/documents/services/document-access.service.js).
use doc_query.Base.{
  ==_iff, sym, ℕ, ◌≡◌, refl, subst, Bool, true, false, Option, none, some, List, [], ◌∷◌, any,
  contains, arith, inl, inr, Bool-cases,
}
use doc_query.Base.Table.{Table}
use doc_query.Base.Attempt.{Attempt, got, threw, Results}
use doc_query.Roles.{Role}
use doc_query.Access.{manages, can_access_document, get_accessible_document_ids, accessible}
use doc_query.Access.Filter.{DistinctIds, accessible-agrees}
use doc_query.Access.Rows.{Grant, read, of_org}
use doc_query.Access.Rows as AccessRows
use doc_query.Documents.Rows.{Document}
use doc_query.Search.{joins}
use doc_query.Search.Scoped.{reachable}
use doc_query.Search.Rows.{Engine}
use doc_query.Redis.{Client}
use doc_query.Query.{allowed_documents, cached_answer, query}
use doc_query.Query.Rows.{Args, Citation, Answer, Settings, Services, State, access_rows}
use doc_query.Query.Prompts.{normalize_query}
use doc_query.Query.Rerankers.{Reranking, with_reranker}
use doc_query.Query.Scoped.{
  with_reranker-KeepsDocuments, Cites, KeepsDocuments, in_reach, InReachOf, query-InReach,
}

-- The single check, for a citation.
abbrev pub may_read :
    {C : Type 0}
    → Table AccessRows.Document
    → Table Grant
    → Args
    → ℕ
    → Role
    → State C
    → Option ℕ
    → Bool
may_read access_docs grants a u r s none = false
may_read access_docs grants a u r s (some id) =
    can_access_document access_docs grants u r a.organization_id id read (access_rows s)

module _ {C : Type 0} (client : Client C Answer) (docs : Table Document)
    (access_docs : Table AccessRows.Document) (grants : Table Grant) (e : Engine) (sv : Services)
    (st : Settings) (reranks : KeepsDocuments sv) where
  any-contains :
      (org id k : ℕ) (ids : List ℕ) (rows : List Document)
      → any (joins org none (some (k ∷ ids)) id) rows ≡ true
      → contains (k ∷ ids) id ≡ true
  any-contains org id k ids [] h = absurd (ground arith)
  any-contains org id k ids (d ∷ rows) h =
      elim (Bool-cases (joins org none (some (k ∷ ids)) id d)) [
        | inl e ↦
            subst (λ n. contains (k ∷ ids) n ≡ true) ((==_iff d.id id).0 (ground (arith, e)))
              (ground (arith, e))
        | inr e ↦ any-contains org id k ids rows (ground (arith, e, h))
      ]

  listed-contains :
      (org : ℕ) (ids : List ℕ) (rows : List Document) (d : Option ℕ)
      → reachable org none (some ids) rows d ≡ true
      → (id : ℕ) × (d ≡ some id) × (contains ids id ≡ true)
  listed-contains org ids rows none h = absurd (ground arith)
  listed-contains org [] rows (some id) h = absurd (ground arith)
  listed-contains org (k ∷ ids) rows (some id) h = (id, refl, any-contains org id k ids rows h)

  abbrev listing : Args → ℕ → Role → State C → List ℕ
  listing a u r s =
      accessible access_docs grants u r read (access_rows s)
        (access_docs.find_many (of_org a.organization_id) (access_rows s).documents)

  allowed_documents-listed :
      (a : Args) (u : ℕ) (r : Role) (s : State C)
      → a.allowed ≡ none
      → a.user_id ≡ some u
      → a.user_role ≡ some r
      → manages r ≡ false
      → allowed_documents client docs access_docs grants e sv st a s ≡ some (listing a u r s)
  unfolding allowed_documents get_accessible_document_ids
  allowed_documents-listed a u r s al us ro m = ground (arith, al, us, ro, m)

  reach-may_read :
      (a : Args) (u : ℕ) (r : Role) (s : State C) (d : Option ℕ)
      → a.allowed ≡ none
      → a.document_id ≡ none
      → a.user_id ≡ some u
      → a.user_role ≡ some r
      → manages r ≡ false
      → DistinctIds (access_rows s).documents
      → in_reach client docs access_docs grants e sv st reranks a s d ≡ true
      → may_read access_docs grants a u r s d ≡ true
  unfolding allowed_documents get_accessible_document_ids
  reach-may_read a u r s d al doc us ro m ids h =
      let listed = allowed_documents-listed a u r s al us ro m in
      let found : reachable a.organization_id none (some (listing a u r s)) s.documents d ≡ true =
        subst (λ x. reachable a.organization_id x (some (listing a u r s)) s.documents d ≡ true) doc
          (subst (λ x. reachable a.organization_id a.document_id x s.documents d ≡ true) listed
            h) in
      let chosen = listed-contains a.organization_id (listing a u r s) s.documents d found in
      subst (λ x. may_read access_docs grants a u r s x ≡ true) (sym chosen.1)
        (ground (
          arith,
          m,
          chosen.2,
          accessible-agrees access_docs grants u r a.organization_id chosen.0 read (access_rows s)
              ids,
        ))

  Cites-weaken :
      (P Q : Option ℕ → Type 0)
      → ((d : Option ℕ) → P d → Q d)
      → (cs : List Citation) → Cites P cs
      → Cites Q cs
  Cites-weaken P Q f [] h = tt
  Cites-weaken P Q f (c ∷ cs) h = (f c.document_id h.0, Cites-weaken P Q f cs h.1)

  Results-weaken :
      {A : Type 0} (P Q : A → Type 0)
      → ((x : A) → P x → Q x)
      → (t : Attempt A) → Results P t
      → Results Q t
  Results-weaken P Q f (got x) h = f x h
  Results-weaken P Q f (threw x) h = tt

module _ {C : Type 0} (client : Client C Answer) (docs : Table Document)
    (access_docs : Table AccessRows.Document) (grants : Table Grant) (e : Engine) (sv : Services)
    (st : Settings) (rk : Reranking) where
  -- A user who neither owns nor administers the organization asks in the whole organization, with no
  -- list of allowed documents given, and the cache does not answer; the identifiers of the documents
  -- are distinct: then every document that the answer cites, whichever reranker of the factory is used,
  -- is one that the access service lets this user read.
  pub query-may_read :
      (a : Args) (u : ℕ) (r : Role) (s : State C)
      → a.allowed ≡ none
      → a.document_id ≡ none
      → a.user_id ≡ some u
      → a.user_role ≡ some r
      → manages r ≡ false
      → DistinctIds (access_rows s).documents
      → cached_answer client docs access_docs grants e
          (with_reranker rk sv)
          st
          a
          (normalize_query a.query)
          s
        ≡ none
      → Results
          (λ (x : Answer). Cites (λ d. may_read access_docs grants a u r s d ≡ true) x.citations)
          (query client docs access_docs grants e (with_reranker rk sv) st a s).0
  query-may_read a u r s al doc us ro m ids miss =
      let reranks = with_reranker-KeepsDocuments rk sv in
      Results-weaken client docs access_docs grants e (with_reranker rk sv) st reranks _ _
        (λ (x : Answer) h.
          Cites-weaken client docs access_docs grants e (with_reranker rk sv) st reranks
            (InReachOf client docs access_docs grants e (with_reranker rk sv) st reranks a s)
            (λ d. may_read access_docs grants a u r s d ≡ true)
            (λ d k.
              reach-may_read client docs access_docs grants e (with_reranker rk sv) st reranks a u r
                s d al doc us ro m ids k)
            x.citations h)
        _ (query-InReach client docs access_docs grants e (with_reranker rk sv) st reranks a s miss)
