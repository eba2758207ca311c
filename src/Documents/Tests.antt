-- ===== src/Documents/Tests.antt =====
-- Runs on two documents of two organizations, with a pipeline that finds one word in every file and
-- one whose files are gone; and the theorems about documents at such inputs.
use doc_query.Base.{
  ◌+◌, any, arith, ◌≡◌, refl, true, false, none, some, [], ◌∷◌, map, length, first,
}
use doc_query.Base.Attempt.{and_then, failure, got}
use doc_query.Base.Table.{Table, in_memory}
use doc_query.Base.Errors.{Code, AppError, ok, err}
use doc_query.Text.{codes, is_space, words}
use doc_query.Chunker.{
  chunk_document, chunk_text, text_windows, number_chunks, make_chunk, estimate_tokens,
}
use doc_query.Pagination.{Query}
use doc_query.Documents.{State, File, uploaded_row, upload, request_processing}
use doc_query.Documents.Processing.{
  Pipeline, succeeded, thrown, process_document, prepare, finish_processing, attach,
}
use doc_query.Documents.Rows.{Document, StoredChunk, by_id, by_id_and_org}
use doc_query.Documents.Outcomes.{Settled, process_document-Settled}
use doc_query.Documents.Requests.{request_processing-once}
use doc_query.Documents.Tenants.{LeavesOthers, process_document-LeavesOthers}
use doc_query.Documents.Ready.{ReadyHasChunks, ready_at}
use doc_query.Documents.Lifecycle.{
  start_here, then_step, by_upload, by_request, by_run, Reach-ReadyHasChunks,
}

abbrev docs : Table Document
docs = in_memory

abbrev stored : Table StoredChunk
stored = in_memory

abbrev file : File
file = record {
  original_name = codes "a.txt";
  path = codes "/a";
  size = 5;
  mime_type = codes "text/plain";
}

abbrev doc : Document
doc = uploaded_row 1 100 7 3 file 0

abbrev elsewhere : Document
elsewhere = uploaded_row 2 100 8 4 file 0

abbrev start : State
start = record { documents = elsewhere ∷ doc ∷ []; chunks = []; jobs = []; dropped = [] }

abbrev pipeline : Pipeline
pipeline = record {
  chunker = record { chunk_size = 500; chunk_overlap = 50 };
  file_exists = λ path. true;
  extract = λ d. got (record { text = codes "word"; pages = []; page_count = 0 });
  clean_text = λ s. s;
  clean_pages = λ ps. ps;
  embed = λ texts. got (map length texts);
  refuses = λ rows. none;
  content_hash = λ path. none;
  decimal = λ n. (48 + n) ∷ [];
}

abbrev broken : Pipeline
broken = record pipeline { file_exists = λ path. false }

doc_found : first (by_id 1) start.documents ≡ some doc
doc_found = refl

doc_found_in_org : first (by_id_and_org 1 7) start.documents ≡ some doc
doc_found_in_org = refl

gone :
    (process_document docs stored broken 200 (some 1) (some 7) start).0
    ≡ thrown (
        failure
          (some (AppError.not_found Code.file_not_found))
          (codes "Document file not found on disk storage"))
unfolding process_document prepare and_then finish_processing
gone = refl

one_chunk : (process_document docs stored pipeline 200 (some 1) (some 7) start).0 ≡ succeeded 1
unfolding process_document prepare and_then finish_processing attach chunk_document chunk_text
    text_windows number_chunks make_chunk estimate_tokens words is_space
one_chunk = refl

wrong_tenant :
    process_document docs stored pipeline 200 (some 1) (some 8) start
    ≡ (thrown (failure (some (AppError.forbidden Code.tenant_isolation_violation)) []), start)
unfolding process_document
wrong_tenant = refl

no_file : (upload docs 3 100 7 3 none 0 start).0 ≡ err (AppError.bad_request Code.file_required)
unfolding upload
no_file = refl

process_document-Settled_example :
    Settled 1 doc start (process_document docs stored pipeline 200 (some 1) (some 7) start)
process_document-Settled_example =
    process_document-Settled docs stored pipeline 200 1 start doc doc_found

process_document-LeavesOthers_example :
    LeavesOthers 1 start (process_document docs stored pipeline 200 (some 1) (some 7) start).1
process_document-LeavesOthers_example =
    process_document-LeavesOthers docs stored pipeline 200 1 7 start

-- The queue still holds the job of an earlier run.
abbrev held : State
held = record start { jobs = record { document_id = 1; organization_id = 7 } ∷ [] }

request_processing-once_example :
    ((request_processing docs true 1 7 held).0 ≡ ok 1)
    × ((request_processing docs true 1 7 held).1.jobs ≡ held.jobs)
    × (request_processing docs true 1 7 (request_processing docs true 1 7 held).1 ≡ (
      err (AppError.conflict Code.document_already_processing),
      (request_processing docs true 1 7 held).1,
    ))
request_processing-once_example =
    request_processing-once docs true true 1 7 held doc doc_found_in_org refl

abbrev query : Query
query = record { limit = codes "1"; page = codes "1"; cursor = [] }

abbrev empty : State
empty = record { documents = []; chunks = []; jobs = []; dropped = [] }

abbrev step_one : State
step_one = (upload docs 1 100 7 3 (some file) 0 empty).1

abbrev step_two : State
step_two = (request_processing docs true 1 7 step_one).1

abbrev step_three : State
step_three = (process_document docs stored pipeline 200 (some 1) (some 7) step_two).1

now_ready : any (ready_at 1) step_three.documents ≡ true
unfolding upload request_processing process_document prepare and_then finish_processing attach
    chunk_document chunk_text text_windows number_chunks make_chunk estimate_tokens words is_space
now_ready = refl

Reach-ReadyHasChunks_example : ReadyHasChunks step_three
Reach-ReadyHasChunks_example =
    Reach-ReadyHasChunks docs stored
      (then_step
        (then_step (then_step start_here (by_upload 1 100 7 3 0 (some file))) (by_request true 1 7))
        (by_run pipeline 200 1 7))
      (λ id r. absurd (ground arith))
