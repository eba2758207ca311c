-- ===== src/Access/Grants.antt =====
-- What a grant and its revocation do (modules/documents/services/document-access.service.js,
-- `grantPermission` and `revokePermission`).
use doc_query.Base.{
  ℕ, ◌≡◌, refl, Bool, true, not, some, Option, List, [], ◌∷◌, ◌++◌, first, any, keep, count, arith,
}
use doc_query.Base.Table.{Table}
use doc_query.Base.Errors.{ok}
use doc_query.Roles.{Role}
use doc_query.Access.{lets_in, allowed, can_access_document, grant_permission, revoke_permission}
use doc_query.Access.Rows.{Level, Grantee, Grant, Document, State, in_org, of_document, by_id}

keep-snoc :
    (id : ℕ) (g : Grant) (gs : List Grant)
    → g.document_id ≡ id
    → keep (of_document id) (gs ++ g ∷ []) ≡ keep (of_document id) gs ++ g ∷ []
keep-snoc id g [] h = ground arith
keep-snoc id g (x ∷ gs) h = ground (arith, keep-snoc id g gs h)

any-snoc :
    (p : Grant → Bool) (g : Grant) (gs : List Grant) → p g ≡ true → any p (gs ++ g ∷ []) ≡ true
any-snoc p g [] h = ground arith
any-snoc p g (x ∷ gs) h = ground (arith, any-snoc p g gs h)

allowed-snoc :
    (u : ℕ) (r : Role) (required : Level) (d : Document) (g : Grant) (gs : List Grant)
    → lets_in u r required g ≡ true
    → allowed u r required d (gs ++ g ∷ []) ≡ true
allowed-snoc u r required d g [] h = ground arith
allowed-snoc u r required d g (x ∷ gs) h =
    ground (arith, any-snoc (lets_in u r required) g (x ∷ gs) h)

first-id :
    (id org : ℕ) (docs : List Document) (d : Document)
    → first (in_org id org) docs ≡ some d
    → d.id ≡ id
first-id id org [] d h = ground arith
first-id id org (x ∷ docs) d h = ground (arith, first-id id org docs d)

count-keep-not : (p : Grant → Bool) (gs : List Grant) → count p (keep (λ g. not (p g)) gs) ≡ 0
count-keep-not p [] = refl
count-keep-not p (g ∷ gs) = ground (arith, count-keep-not p gs)

keep-keep : (p : Grant → Bool) (gs : List Grant) → keep p (keep p gs) ≡ keep p gs
keep-keep p [] = refl
keep-keep p (g ∷ gs) = ground (arith, keep-keep p gs)

module _ (documents : Table Document) (grants : Table Grant) where
  -- A successful grant on a document of the organization takes effect at once: whoever the new
  -- row lets in at a level passes the check of the document at that level.
  pub grant_opens :
      (new_id org id actor : ℕ) (actor_role : Role) (t : Grantee) (gid : Option ℕ)
      (grole : Option Role) (level : Option Level) (s : State) (g : Grant) (d : Document) (u : ℕ)
      (r : Role) (required : Level)
      → (grant_permission documents grants new_id org id actor actor_role t gid grole level s).0
        ≡ ok g
      → first (in_org id org) s.documents ≡ some d
      → lets_in u r required g ≡ true
      → can_access_document documents grants u r org id required
          (grant_permission documents grants new_id org id actor actor_role t gid grole level s).1
        ≡ true
  unfolding grant_permission can_access_document
  grant_opens new_id org id actor actor_role t gid grole level s g d u r required e found inside =
      ground (
        arith,
        documents.find_lem (in_org id org) s.documents,
        grants.create_lem g s.grants,
        grants.find_many_lem (of_document d.id) (s.grants ++ g ∷ []),
        keep-snoc d.id g s.grants,
        allowed-snoc u r required d g (keep (of_document d.id) s.grants) inside,
        first-id id org s.documents d found,
      )

  -- After a successful revocation no grant with that identifier is left, every other grant
  -- stays, and the documents are untouched.
  pub revoke_removes :
      (org id pid actor : ℕ) (actor_role : Role) (s : State)
      → (revoke_permission documents grants org id pid actor actor_role s).0 ≡ ok tt
      → let s' = (revoke_permission documents grants org id pid actor actor_role s).1 in
        (count (by_id pid) s'.grants ≡ 0)
        × (keep (λ g. not (by_id pid g)) s'.grants ≡ keep (λ g. not (by_id pid g)) s.grants)
        × (s'.documents ≡ s.documents)
  unfolding revoke_permission can_access_document
  revoke_removes org id pid actor actor_role s e = (
    ground (arith, grants.delete_lem (by_id pid) s.grants, count-keep-not (by_id pid) s.grants),
    ground (
      arith,
      grants.delete_lem (by_id pid) s.grants,
      keep-keep (λ g. not (by_id pid g)) s.grants,
    ),
    ground arith,
  )
