-- ===== src/Access/Filter.antt =====
-- The list of documents that a search may look at agrees with the check of a single document
-- (modules/documents/services/document-access.service.js).
use doc_query.Base.{
  ==_iff, subst, ℕ, ◌≡◌, refl, Bool, true, false, ◌==◌, none, some, List, [], ◌∷◌, first, keep, any,
  contains, count, arith, Bool-cases, inl, inr,
}
use doc_query.Base.Table.{Table}
use doc_query.Roles.{Role}
use doc_query.Access.{
  allowed, lets_in, weight, has_grant, is_listed, accessible, can_access_document,
  get_accessible_document_ids,
}
use doc_query.Access.Rows.{Level, Grant, Document, State, in_org, of_org, of_document}

-- `id` is the primary key.
abbrev pub DistinctIds : List Document → Type 0
DistinctIds [] = Unit
DistinctIds (d ∷ ds) = (count (λ e. e.id == d.id) ds ≡ 0) × DistinctIds ds

has_grant-lets_in :
    (u : ℕ) (r : Role) (required : Level) (g : Grant)
    → has_grant u r (weight required) g ≡ lets_in u r required g
has_grant-lets_in u r required g = ground arith

any-has_grant :
    (u : ℕ) (r : Role) (required : Level) (gs : List Grant)
    → any (has_grant u r (weight required)) gs ≡ any (lets_in u r required) gs
any-has_grant u r required [] = refl
any-has_grant u r required (g ∷ gs) =
    ground (arith, has_grant-lets_in u r required g, any-has_grant u r required gs)

-- The decision of the loop is that of the single check.
is_listed-allowed :
    (u : ℕ) (r : Role) (required : Level) (d : Document) (gs : List Grant)
    → is_listed u r required d gs ≡ allowed u r required d gs
is_listed-allowed u r required d [] = ground arith
is_listed-allowed u r required d (g ∷ gs) = ground (arith, any-has_grant u r required (g ∷ gs))

module _ (documents : Table Document) (grants : Table Grant) where
  -- The decision for a document that may not be there.
  abbrev decide : ℕ → Role → ℕ → ℕ → Level → State → List Document → Bool
  decide u r org id required s docs = elim (first (in_org id org) docs) [
    | none ↦ false
    | some d ↦ allowed u r required d (grants.find_many (of_document d.id) s.grants)
  ]

  contains-absent :
      (u : ℕ) (r : Role) (org id : ℕ) (required : Level) (s : State) (docs : List Document)
      → count (λ e. e.id == id) docs ≡ 0
      → contains (accessible documents grants u r required s (keep (of_org org) docs)) id ≡ false
  unfolding accessible
  contains-absent u r org id required s [] h = refl
  contains-absent u r org id required s (d ∷ docs) h =
      ground (arith, contains-absent u r org id required s docs)

  first-absent :
      (org id : ℕ) (docs : List Document)
      → count (λ e. e.id == id) docs ≡ 0
      → first (in_org id org) docs ≡ none
  first-absent org id [] h = refl
  first-absent org id (d ∷ docs) h = ground (arith, first-absent org id docs)

  contains-head :
      (u : ℕ) (r : Role) (org : ℕ) (required : Level) (s : State) (d : Document)
      (docs : List Document)
      → count (λ e. e.id == d.id) docs ≡ 0
      → contains (accessible documents grants u r required s (keep (of_org org) (d ∷ docs))) d.id
        ≡ decide u r org d.id required s (d ∷ docs)
  unfolding accessible
  contains-head u r org required s d docs h = ground (
    arith,
    (==_iff d.id d.id).1 refl,
    first-absent org d.id docs h,
    contains-absent u r org d.id required s docs h,
    is_listed-allowed u r required d (grants.find_many (of_document d.id) s.grants),
  )

  contains-accessible :
      (u : ℕ) (r : Role) (org id : ℕ) (required : Level) (s : State) (docs : List Document)
      → DistinctIds docs
      → contains (accessible documents grants u r required s (keep (of_org org) docs)) id
        ≡ decide u r org id required s docs
  unfolding accessible
  contains-accessible u r org id required s [] h = refl
  contains-accessible u r org id required s (d ∷ docs) h = elim (Bool-cases (d.id == id)) [
    | inl same ↦
        subst
          (λ k.
            contains (accessible documents grants u r required s (keep (of_org org) (d ∷ docs))) k
            ≡ decide u r org k required s (d ∷ docs))
          ((==_iff d.id id).0 same) (contains-head u r org required s d docs h.0)
    | inr other ↦ ground (arith, contains-accessible u r org id required s docs h.1)
  ]

  -- Where the identifiers of documents are distinct, a document is in the list of accessible documents
  -- of a user who does not manage the organization, which getAccessibleDocumentIds decides on by tests
  -- of its own, exactly when the single check lets the user in: no identifier is listed that the check
  -- refuses, of another organization or not, and none is missing. A manager gets `null`, and passes the
  -- check for every identifier.
  pub accessible-agrees :
      (u : ℕ) (r : Role) (org id : ℕ) (required : Level) (s : State)
      → DistinctIds s.documents
      → (elim (get_accessible_document_ids documents grants u r org required s) [
        | none ↦ true
        | some ids ↦ contains ids id
      ])
        ≡ can_access_document documents grants u r org id required s
  unfolding get_accessible_document_ids can_access_document
  accessible-agrees u r org id required s h = ground (
    arith,
    documents.find_lem (in_org id org) s.documents,
    documents.find_many_lem (of_org org) s.documents,
    contains-accessible u r org id required s s.documents h,
  )
