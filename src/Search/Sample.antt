-- ===== src/Search/Sample.antt =====
-- A small organization for the tests: two READY documents, with a chunk each, and a database that
-- finds every chunk, in the order of the table.
use doc_query.Base.{ℕ, ◌+◌, ◌/◌, refl, true, none, List, [], ◌∷◌}
use doc_query.Base.Attempt.{got}
use doc_query.Base.Table.{Table, in_memory}
use doc_query.Text.{codes}
use doc_query.Documents.Rows.{Document, ready, given}
use doc_query.Search.Rows.{ChunkRow, Engine, State}

abbrev pub engine : Engine
engine = record {
  embed = λ query. got 0;
  similar = λ v t c. true;
  similarity = λ v c. c.embedding;
  matches = λ q c. true;
  text_rank = λ q c. 1;
  nearest = λ v rows. rows;
  best = λ q rows. rows;
  nearest_lem = λ v p rows. refl;
  best_lem = λ q p rows. refl;
  round = λ n. n;
  arithmetic = record { plus = λ a b. a + b; share = λ k r. 1000 / (k + r); round = λ n. n };
  rrf_k = 60;
}

abbrev pub docs : Table Document
docs = in_memory

abbrev pub ready_document : ℕ → ℕ → Document
ready_document id user = record {
  id = id;
  organization_id = 7;
  user_id = user;
  name = codes "a.txt";
  file_path = codes "/a";
  file_size = 5;
  mime_type = codes "text/plain";
  status = ready;
  error_message = none;
  processing_attempts = 1;
  page_count = none;
  metadata = given 0;
  created_at = 0;
}

abbrev pub chunk_row : ℕ → ℕ → ChunkRow
chunk_row id doc = record {
  id = id;
  document_id = doc;
  content = codes "text";
  chunk_index = 0;
  page_number = none;
  metadata = 0;
  embedding = id;
}

abbrev pub two_documents : List Document
two_documents = ready_document 1 3 ∷ ready_document 2 4 ∷ []

abbrev pub two_chunks : List ChunkRow
two_chunks = chunk_row 11 1 ∷ chunk_row 12 2 ∷ []

abbrev pub tables : State
tables = record { documents = two_documents; chunks = two_chunks }
