-- ===== src/Documents.antt =====
-- The documents of an organization: modules/documents/document.service.js and
-- services/queue.service.js; times are milliseconds.
pub mod Rows
pub mod Processing
pub mod Storing
pub mod Outcomes
pub mod Requests
pub mod Tenants
pub mod Ready
pub mod Lifecycle
pub mod Listing
mod Tests
use doc_query.Base.{
  ℕ, Bool, true, false, not, ◌&&◌, ◌||◌, ◌==◌, ◌+◌, Option, none, some, List, [], ◌∷◌, ◌++◌, map,
  any, length, take, present, or_else, if◌then◌else◌,
}
use doc_query.Base.Table.{Table}
use doc_query.Base.Errors.{
  Result, ok, err, Code, AppError, Action, pure, throw_if, gets, or_throw, modify, ◌>>=◌, ◌>>◌,
}
use doc_query.Text.{codes, trim}
use doc_query.Pagination.{
  Value, object, undefined, Query, OffsetPagination, parse_pagination_params,
  build_offset_pagination,
}
use doc_query.Chunker.{Chunk, Chunker, Page, chunk_document}
use Rows.{
  Status, uploaded, queued, processing, ready, failed, same_status, given, processed, Notes,
  Document, StoredChunk, Extra, error_only, find_by_id, find_by_id_and_org, list_by_org,
  update_status, increment_attempts, save_chunks, of_document,
}

pub record Job : Type 0 where
  pub document_id : ℕ
  pub organization_id : ℕ

-- The tables, the jobs that the queue holds, done and failed ones that it keeps included, and the
-- organizations whose cached answers were dropped.
pub record State : Type 0 where
  pub documents : List Document
  pub chunks : List StoredChunk
  pub jobs : List Job
  pub dropped : List ℕ

-- What multer (a package) tells of an uploaded file; a missing text is empty.
pub record File : Type 0 where
  pub original_name : List ℕ
  pub path : List ℕ
  pub size : ℕ
  pub mime_type : List ℕ

-- `text || d`
abbrev text_or : List ℕ → List ℕ → List ℕ
text_or [] d = d
text_or (c ∷ s) d = c ∷ s

-- The row that `upload` creates.
abbrev pub uploaded_row : ℕ → ℕ → ℕ → ℕ → File → ℕ → Document
uploaded_row new_id now org user file notes = record {
  id = new_id;
  organization_id = org;
  user_id = user;
  name = text_or file.original_name (codes "document.pdf");
  file_path = file.path;
  file_size = file.size;
  mime_type = text_or file.mime_type (codes "application/pdf");
  status = uploaded;
  error_message = none;
  processing_attempts = 0;
  page_count = none;
  metadata = given notes;
  created_at = now;
}

abbrev pub is_active : Status → Bool
is_active st = same_status st queued || same_status st processing

abbrev pub set_documents : (List Document → List Document) → State → State
set_documents f s = record s { documents = f s.documents }

-- `jobId: doc_process_<documentId>` is the same.
abbrev pub same_job_id : Job → Job → Bool
same_job_id job held = held.document_id == job.document_id

-- `enqueueDocumentJob`, where the queue is there or not. The queue adds nothing under the identifier
-- of a job that it still holds.
abbrev pub enqueue_job : Bool → Job → State → State
enqueue_job true job s = record s {
  jobs = if any (same_job_id job) s.jobs then s.jobs else s.jobs ++ job ∷ [];
}
enqueue_job false job s = s

module _ (docs : Table Document) where
  pub upload : ℕ → ℕ → ℕ → ℕ → Option File → ℕ → Action State Document
  upload new_id now org user file notes = do
    f ← or_throw file (AppError.bad_request Code.file_required)
    let row = uploaded_row new_id now org user f notes
    modify (set_documents (docs.create row))
    pure row

  -- `process`
  pub request_processing : Bool → ℕ → ℕ → Action State ℕ
  request_processing queue_up id org = do
    found ← gets (λ s. find_by_id_and_org docs id org s.documents)
    d ← or_throw found (AppError.not_found Code.document_not_found)
    throw_if (is_active d.status) (AppError.conflict Code.document_already_processing)
    modify (set_documents (update_status docs id queued (error_only none)))
    modify (enqueue_job queue_up (record { document_id = id; organization_id = org }))
    pure id

pub record DocumentList : Type 0 where
  pub documents : List Document
  pub pagination : OffsetPagination

module _ (docs : Table Document) (newest_first : List Document → List Document)
    (parse_int : List ℕ → Value) where
  -- `list`. The parsed parameters have no `skip`, and `buildOffsetPagination` gets one object.
  pub list_documents : ℕ → Query → Option Status → List Document → DocumentList
  list_documents org q st rows =
      let params = parse_pagination_params parse_int q in
      record {
        documents = list_by_org docs newest_first org none (some params.limit) st rows;
        pagination = build_offset_pagination object undefined undefined;
      }

-- What `getById` shows of a document: its path on the disk is left out.
pub record DocumentView : Type 0 where
  pub document_id : ℕ
  pub organization_id : ℕ
  pub user_id : ℕ
  pub name : List ℕ
  pub file_size : ℕ
  pub mime_type : List ℕ
  pub status : Status
  pub error_message : Option (List ℕ)
  pub processing_attempts : ℕ
  pub page_count : Option ℕ
  pub chunk_count : ℕ
  pub metadata : Notes
  pub created_at : ℕ

abbrev document_view : Document → ℕ → DocumentView
document_view d chunk_count = record {
  document_id = d.id;
  organization_id = d.organization_id;
  user_id = d.user_id;
  name = d.name;
  file_size = d.file_size;
  mime_type = d.mime_type;
  status = d.status;
  error_message = d.error_message;
  processing_attempts = d.processing_attempts;
  page_count = d.page_count;
  chunk_count = chunk_count;
  metadata = d.metadata;
  created_at = d.created_at;
}

-- `getById`
pub get_document :
    Table Document
    → Table StoredChunk
    → ℕ
    → ℕ
    → List Document
    → List StoredChunk
    → Result DocumentView
get_document docs chunks id org rows stored = elim (find_by_id_and_org docs id org rows) [
  | none ↦ err (AppError.not_found Code.document_not_found)
  | some d ↦ ok (document_view d (chunks.count_where (of_document id) stored))
]
