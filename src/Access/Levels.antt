-- ===== src/Access/Levels.antt =====
-- The three levels of access form a ladder (modules/documents/services/document-access.service.js,
-- `canAccessDocument`).
use doc_query.Base.{ℕ, ◌≤◌, ◌≡◌, true, List, [], ◌∷◌, any, arith, Option-cases, inl, inr}
use doc_query.Base.Table.{Table}
use doc_query.Roles.{Role}
use doc_query.Access.{weight, lets_in, allowed, can_access_document}
use doc_query.Access.Rows.{Level, Grant, Document, State, in_org, of_document}

lets_in_mono :
    (u : ℕ) (r : Role) (lo hi : Level) (g : Grant)
    → weight lo ≤ weight hi
    → lets_in u r hi g ≡ true
    → lets_in u r lo g ≡ true
lets_in_mono u r lo hi g h e = ground arith

any_mono :
    (u : ℕ) (r : Role) (lo hi : Level) (gs : List Grant)
    → weight lo ≤ weight hi
    → any (lets_in u r hi) gs ≡ true
    → any (lets_in u r lo) gs ≡ true
any_mono u r lo hi [] h e = e
any_mono u r lo hi (g ∷ gs) h e =
    ground (arith, lets_in_mono u r lo hi g h, any_mono u r lo hi gs h)

pub allowed_mono :
    (u : ℕ) (r : Role) (lo hi : Level) (d : Document) (gs : List Grant)
    → weight lo ≤ weight hi
    → allowed u r hi d gs ≡ true
    → allowed u r lo d gs ≡ true
allowed_mono u r lo hi d [] h e = ground arith
allowed_mono u r lo hi d (g ∷ gs) h e = ground (arith, any_mono u r lo hi (g ∷ gs) h)

module _ (documents : Table Document) (grants : Table Grant) where
  -- Who has a level of access to a document has every lower level too.
  pub can_access_document_mono :
      (u : ℕ) (r : Role) (org id : ℕ) (lo hi : Level) (s : State)
      → weight lo ≤ weight hi
      → can_access_document documents grants u r org id hi s ≡ true
      → can_access_document documents grants u r org id lo s ≡ true
  unfolding can_access_document
  can_access_document_mono u r org id lo hi s h e =
      elim (Option-cases (documents.find (in_org id org) s.documents)) [
        | inl missing ↦ ground arith
        | inr (d, found) ↦
            ground
              (arith, allowed_mono u r lo hi d (grants.find_many (of_document d.id) s.grants) h)
      ]
