-- ===== src/Documents/Rows.antt =====
-- The rows of the document tables, as prisma/schema.prisma names their columns; a vector is a
-- number that stands for it. The repositories: modules/documents/repositories/document.repository.js
-- and document-chunk.repository.js.
use doc_query.Base.{
  ℕ, Bool, true, false, ◌==◌, ◌+◌, ◌&&◌, Option, none, some, List, [], ◌∷◌, or_else, drop, take,
}
use doc_query.Base.Table.{Table}
use doc_query.Chunker.{Metadata}

pub data Status : Type 0 where
  uploaded queued processing ready failed : Status

abbrev pub same_status : Status → Status → Bool
same_status uploaded uploaded = true
same_status queued queued = true
same_status processing processing = true
same_status ready ready = true
same_status failed failed = true
same_status _ _ = false

-- What the uploader gave, or what the processing wrote.
pub data Notes : Type 0 where
  given : ℕ → Notes
  processed : ℕ → Option (List ℕ) → ℕ → Notes

pub record Document : Type 0 where
  pub id : ℕ
  pub organization_id : ℕ
  pub user_id : ℕ
  pub name : List ℕ
  pub file_path : List ℕ
  pub file_size : ℕ
  pub mime_type : List ℕ
  pub status : Status
  pub error_message : Option (List ℕ)
  pub processing_attempts : ℕ
  pub page_count : Option ℕ
  pub metadata : Notes
  pub created_at : ℕ

pub record StoredChunk : Type 0 where
  pub document_id : ℕ
  pub content : List ℕ
  pub chunk_index : ℕ
  pub page_number : Option ℕ
  pub metadata : Metadata
  pub embedding : ℕ

-- `extra` of `updateStatus`; a part that is undefined is none.
pub record Extra : Type 0 where
  pub error_message : Option (Option (List ℕ))
  pub page_count : Option ℕ
  pub processing_attempts : Option ℕ
  pub metadata : Option Notes

abbrev pub error_only : Option (List ℕ) → Extra
error_only m = record {
  error_message = some m;
  page_count = none;
  processing_attempts = none;
  metadata = none;
}

abbrev pub or_keep : Option ℕ → Option ℕ → Option ℕ
or_keep none old = old
or_keep (some n) old = some n

abbrev pub with_status : Status → Extra → Document → Document
with_status st extra d = record d {
  status = st;
  error_message = or_else extra.error_message d.error_message;
  page_count = or_keep extra.page_count d.page_count;
  processing_attempts = or_else extra.processing_attempts d.processing_attempts;
  metadata = or_else extra.metadata d.metadata;
}

abbrev pub one_more_attempt : Document → Document
one_more_attempt d = record d { processing_attempts = d.processing_attempts + 1 }

abbrev pub by_id : ℕ → Document → Bool
by_id id d = d.id == id

abbrev pub by_id_and_org : ℕ → ℕ → Document → Bool
by_id_and_org id org d = d.id == id && d.organization_id == org

abbrev pub of_document : ℕ → StoredChunk → Bool
of_document id c = c.document_id == id

abbrev has_status : Option Status → Document → Bool
has_status none d = true
has_status (some st) d = same_status d.status st

abbrev pub listed : ℕ → Option Status → Document → Bool
listed org st d = d.organization_id == org && has_status st d

module _ (docs : Table Document) where
  abbrev pub find_by_id : ℕ → List Document → Option Document
  find_by_id id = docs.find (by_id id)

  abbrev pub find_by_id_and_org : ℕ → ℕ → List Document → Option Document
  find_by_id_and_org id org = docs.find (by_id_and_org id org)

  abbrev pub update_status : ℕ → Status → Extra → List Document → List Document
  update_status id st extra = docs.update (by_id id) (with_status st extra)

  abbrev pub increment_attempts : ℕ → List Document → List Document
  increment_attempts id = docs.update (by_id id) one_more_attempt

  -- `listByOrg`; the order of the database, newest first, is a parameter.
  abbrev pub list_by_org :
      (List Document → List Document)
      → ℕ
      → Option ℕ
      → Option ℕ
      → Option Status
      → List Document
      → List Document
  list_by_org newest_first org skip limit st rows =
      take (or_else limit 50)
        (drop (or_else skip 0) (newest_first (docs.find_many (listed org st) rows)))

-- The statements of `saveChunksWithEmbeddings`, once the transaction commits: the old rows go, the
-- new ones come in order.
unfoldable pub insert_all :
    Table StoredChunk → List StoredChunk → List StoredChunk → List StoredChunk
insert_all chunks [] rows = rows
insert_all chunks (c ∷ new) rows = insert_all chunks new (chunks.create c rows)

abbrev pub save_chunks :
    Table StoredChunk → ℕ → List StoredChunk → List StoredChunk → List StoredChunk
unfolding insert_all
save_chunks chunks id [] rows = rows
save_chunks chunks id (c ∷ new) rows =
    insert_all chunks (c ∷ new) (chunks.delete (of_document id) rows)
