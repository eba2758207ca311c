-- ===== src/Documents/Requests.antt =====
-- Requests for processing (modules/documents/document.service.js, `process`).
use doc_query.Base.{
  ℕ, ◌≡◌, refl, Bool, true, false, List, [], ◌∷◌, ◌++◌, none, some, first, any, ◌==◌, arith,
  if◌then◌else◌,
}
use doc_query.Base.Table.{Table, update_where}
use doc_query.Base.Keyed.{first_passes, first-update_where}
use doc_query.Base.Errors.{Code, AppError, ok, err}
use doc_query.Documents.{State, is_active, request_processing}
use doc_query.Documents.Rows.{queued, Document, error_only, with_status, by_id, by_id_and_org}

module _ (docs : Table Document) where
  first-queued :
      (id org : ℕ) (rows : List Document) (d : Document)
      → first (by_id_and_org id org) rows ≡ some d
      → first
          (by_id_and_org id org)
          (update_where (by_id id) (with_status queued (error_only none)) rows)
        ≡ some (with_status queued (error_only none) d)
  first-queued id org rows d found = ground (
    arith,
    first_passes (λ (x : Document). x.id) (by_id_and_org id org) rows d found,
    first-update_where (by_id_and_org id org) (by_id id) (with_status queued (error_only none)) rows
        (λ x. refl),
    found,
  )

  -- A request for a document that is neither QUEUED nor PROCESSING succeeds and makes it QUEUED.
  -- One job is added where the queue is there and holds no job for the document yet; where it holds
  -- one, be it a done or failed one, or is not there, no job is added. Either way every further
  -- request is refused as a conflict and changes nothing, even if the queue is back.
  pub request_processing-once :
      (q later : Bool) (id org : ℕ) (s : State) (d : Document)
      → first (by_id_and_org id org) s.documents ≡ some d
      → is_active d.status ≡ false
      → ((request_processing docs q id org s).0 ≡ ok id)
        × ((request_processing docs q id org s).1.jobs ≡ (
            if q
            then (if any (λ j. j.document_id == id) s.jobs
                then s.jobs
                else s.jobs ++ record { document_id = id; organization_id = org } ∷ [])
            else s.jobs))
        × (request_processing docs later id org (request_processing docs q id org s).1 ≡ (
          err (AppError.conflict Code.document_already_processing),
          (request_processing docs q id org s).1,
        ))
  unfolding request_processing
  request_processing-once true later id org s d found idle = ground (
    arith,
    docs.find_lem (by_id_and_org id org) s.documents,
    docs.update_lem (by_id id) (with_status queued (error_only none)) s.documents,
    docs.find_lem (by_id_and_org id org)
        (update_where (by_id id) (with_status queued (error_only none)) s.documents),
    first-queued id org s.documents d found,
  )
  request_processing-once false later id org s d found idle = ground (
    arith,
    docs.find_lem (by_id_and_org id org) s.documents,
    docs.update_lem (by_id id) (with_status queued (error_only none)) s.documents,
    docs.find_lem (by_id_and_org id org)
        (update_where (by_id id) (with_status queued (error_only none)) s.documents),
    first-queued id org s.documents d found,
  )
