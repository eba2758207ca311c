-- ===== src/Search/Found.antt =====
-- What a chunk that was found has to do with the rows of documents, without the filters of
-- modules/search/search.repository.js.
use doc_query.Base.{
  ℕ, ◌≡◌, refl, ◌≢◌, ap, Bool, true, ==_iff, Bool-cases, inl, inr, Option, none, some, List, [],
  ◌∷◌, ◌++◌, any, contains, All, arith,
}
use doc_query.Base.Table.{Table}
use doc_query.Base.Attempt.{Attempt, got, threw, Results}
use doc_query.Context.{Candidate}
use doc_query.Documents.Rows.{Document, Status, ready, same_status}
use doc_query.Search.{Allowed, document_condition, joins, hybrid_search}
use doc_query.Search.Rows.{Engine, State}
use doc_query.Search.Scoped.{reachable, InReach, hybrid_search-InReach}

-- A row of the table is the document of the chunk: READY, of the organization, the one that was asked
-- for if one was, otherwise one of the list if there is one; and the list is not empty.
pub record IsFound (org : ℕ) (doc : Option ℕ) (allowed : Allowed) (rows : List Document)
    (id : Option ℕ) : Type 0 where
  pub row : Document
  pub stored : (pre : List Document) × (post : List Document) × (rows ≡ pre ++ row ∷ post)
  pub named : id ≡ some row.id
  pub own : row.organization_id ≡ org
  pub is_ready : row.status ≡ ready
  pub asked_for : (n : ℕ) → doc ≡ some n → row.id ≡ n
  pub in_list : (ids : List ℕ) → doc ≡ none → allowed ≡ some ids → contains ids row.id ≡ true
  pub not_empty : allowed ≢ some []

eq_of_same_status : (s t : Status) → same_status s t ≡ true → s ≡ t
eq_of_same_status s t h = ground arith

condition-asked_for :
    (doc : Option ℕ) (allowed : Allowed) (id n : ℕ)
    → document_condition doc allowed id ≡ true
    → doc ≡ some n
    → id ≡ n
condition-asked_for doc allowed id n h e = ground (arith, ==_iff id n)

condition-listed :
    (doc : Option ℕ) (allowed : Allowed) (id : ℕ) (ids : List ℕ)
    → document_condition doc allowed id ≡ true
    → allowed ≢ some []
    → doc ≡ none
    → allowed ≡ some ids
    → contains ids id ≡ true
condition-listed doc allowed id [] h some_allowed e k = absurd (some_allowed k)
condition-listed doc allowed id (i ∷ ids) h some_allowed e k = ground arith

module _ (org : ℕ) (doc : Option ℕ) (allowed : Allowed) where
  row-IsFound :
      (rows : List Document) (id : ℕ)
      → allowed ≢ some []
      → any (joins org doc allowed id) rows ≡ true
      → IsFound org doc allowed rows (some id)
  row-IsFound [] id k h = absurd (ground arith)
  row-IsFound (d ∷ rows) id k h = elim (Bool-cases (joins org doc allowed id d)) [
    | inl here ↦ record {
      row = d;
      stored = ([], rows, refl);
      named = ap some (ground (arith, here, ==_iff d.id id));
      own = ground (arith, here, ==_iff d.organization_id org);
      is_ready = eq_of_same_status d.status ready (ground (arith, here));
      asked_for = λ n. condition-asked_for doc allowed d.id n (ground (arith, here));
      in_list = λ ids. condition-listed doc allowed d.id ids (ground (arith, here)) k;
      not_empty = k;
    }
    | inr other ↦
        let later = row-IsFound rows id k (ground (arith, other, h)) in
        let (pre, post, cut) = later.stored in
        record {
          row = later.row;
          stored = (d ∷ pre, post, ap (λ r. d ∷ r) cut);
          named = later.named;
          own = later.own;
          is_ready = later.is_ready;
          asked_for = later.asked_for;
          in_list = later.in_list;
          not_empty = later.not_empty;
        }
  ]

  reachable-IsFound :
      (rows : List Document) (id : Option ℕ)
      → reachable org doc allowed rows id ≡ true
      → IsFound org doc allowed rows id
  reachable-IsFound rows none h = absurd (ground arith)
  reachable-IsFound rows (some id) h =
      row-IsFound rows id (λ e. ground (arith, e, h)) (ground (arith, h))

  -- Every chunk of a list is found in this sense.
  abbrev pub AllFound : List Document → List Candidate → Type 0
  AllFound rows = All (λ (c : Candidate). IsFound org doc allowed rows c.document_id)

  InReach-AllFound :
      (rows : List Document) (hits : List Candidate)
      → InReach org doc allowed rows hits
      → AllFound rows hits
  InReach-AllFound rows [] h = tt
  InReach-AllFound rows (c ∷ hits) h =
      (reachable-IsFound rows c.document_id h.0, InReach-AllFound rows hits h.1)

  Results-AllFound :
      (rows : List Document) (t : Attempt (List Candidate))
      → Results (InReach org doc allowed rows) t
      → Results (AllFound rows) t
  Results-AllFound rows (got hits) h = InReach-AllFound rows hits h
  Results-AllFound rows (threw x) h = tt

-- Every chunk that a search returns, with or without the fusion of both searches, belongs to a READY
-- document of the organization: to the one that was asked for, if one was; otherwise, if a list of
-- allowed documents was given, to one of the list. With an empty list nothing is found.
pub hybrid_search-AllFound :
    (docs : Table Document) (e : Engine) (org : ℕ) (query : List ℕ) (top_k : ℕ) (doc : Option ℕ)
    (threshold : ℕ) (enable : Bool) (allowed : Allowed) (s : State)
    → Results
        (AllFound org doc allowed s.documents)
        (hybrid_search docs e org query top_k doc threshold enable allowed s)
hybrid_search-AllFound docs e org query top_k doc threshold enable allowed s =
    Results-AllFound org doc allowed s.documents _
      (hybrid_search-InReach docs e org query top_k doc threshold enable allowed s)
