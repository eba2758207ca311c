-- ===== src/Usage.antt =====
-- services/usage-metering.service.js: usage events, the totals of each day, and the sums of a month.
-- Amounts are numbers from 0; the clock gives its time as an ISO text. Times, names and dates are
-- lists of code units.
pub mod Days
pub mod Totals
pub mod Quota
mod Tests
use doc_query.Base.{
  ℕ, Bool, true, false, ◌==◌, ◌+◌, ◌&&◌, not, ltb, take, Option, none, some, List, [], ◌∷◌,
  if◌then◌else◌,
}
use doc_query.Base.Table.{Table, upsert}
use doc_query.Text.{text_eq, starts_with}
use doc_query.Documents.Rows.{Document, Status, failed, same_status}

pub data EventType : Type 0 where
  query embedding storage api_request llm_tokens document_upload : EventType

-- `metadata?.inputTokens` and `metadata?.outputTokens`, 0 where there is none.
pub record Metadata : Type 0 where
  pub input_tokens : ℕ
  pub output_tokens : ℕ

-- A call of `recordUsage` and the time at which it comes; `units` only goes into the record.
pub record Usage : Type 0 where
  pub organization_id : ℕ
  pub event_type : EventType
  pub quantity : ℕ
  pub metadata : Metadata
  pub now : List ℕ

-- UsageDailyAggregate; one row for an organization and a date.
pub record Aggregate : Type 0 where
  pub organization_id : ℕ
  pub date : List ℕ
  pub queries_count : ℕ
  pub input_tokens : ℕ
  pub output_tokens : ℕ
  pub embeddings_count : ℕ
  pub storage_bytes : ℕ
  pub api_requests : ℕ

pub record State : Type 0 where
  pub records : List Usage
  pub aggregates : List Aggregate
  pub documents : List Document

-- `new Date().toISOString().slice(0, 10)`
abbrev pub today : List ℕ → List ℕ
today now = take 10 now

abbrev pub of_day : ℕ → List ℕ → Aggregate → Bool
of_day org date a = a.organization_id == org && text_eq a.date date

-- The row that the first usage of a day creates, by the columns of its event.
abbrev pub when : Bool → ℕ → ℕ
when b n = if b then n else 0

abbrev pub is_query : EventType → Bool
is_query query = true
is_query _ = false

abbrev pub is_api_request : EventType → Bool
is_api_request api_request = true
is_api_request _ = false

abbrev pub is_embedding : EventType → Bool
is_embedding embedding = true
is_embedding _ = false

abbrev pub is_storage : EventType → Bool
is_storage storage = true
is_storage _ = false

abbrev pub created : Usage → Aggregate
created u = record {
  organization_id = u.organization_id;
  date = today u.now;
  queries_count = when (is_query u.event_type) u.quantity;
  input_tokens = u.metadata.input_tokens;
  output_tokens = u.metadata.output_tokens;
  embeddings_count = when (is_embedding u.event_type) u.quantity;
  storage_bytes = when (is_storage u.event_type) u.quantity;
  api_requests = when (is_api_request u.event_type) u.quantity;
}

-- `updateData`, by the event.
abbrev pub increments : EventType → ℕ → Metadata → Aggregate → Aggregate
increments query n m a = record a { queries_count = a.queries_count + n }
increments api_request n m a = record a { api_requests = a.api_requests + n }
increments embedding n m a = record a { embeddings_count = a.embeddings_count + n }
increments llm_tokens n m a = record a {
  input_tokens = a.input_tokens + m.input_tokens;
  output_tokens = a.output_tokens + m.output_tokens;
}
increments storage n m a = record a { storage_bytes = a.storage_bytes + n }
increments document_upload n m a = a

abbrev pub incremented : Usage → Aggregate → Aggregate
incremented u a = increments u.event_type u.quantity u.metadata a

-- `_updateDailyAggregate`
pub update_daily_aggregate : Table Aggregate → Usage → List Aggregate → List Aggregate
update_daily_aggregate aggregates u =
    upsert aggregates (of_day u.organization_id (today u.now)) (created u) (incremented u)

-- Which of the two writes of a call the database takes.
pub record Writes : Type 0 where
  pub record_written : Bool
  pub aggregate_written : Bool

abbrev pub all_written : Writes
all_written = record { record_written = true; aggregate_written = true }

-- `recordUsage`: the record, or none where it could not be written. An aggregate that could not be
-- written is only logged.
pub record_usage : Table Usage → Table Aggregate → Writes → Usage → State → Option Usage × State
unfolding update_daily_aggregate
record_usage records aggregates w u s =
    if w.record_written
    then (
      some u,
      record s {
        records = records.create u s.records;
        aggregates =
            if w.aggregate_written
            then update_daily_aggregate aggregates u s.aggregates
            else s.aggregates;
      },
    )
    else (none, s)

pub record MonthlyUsage : Type 0 where
  pub month : List ℕ
  pub total_queries : ℕ
  pub total_tokens : ℕ
  pub total_api_requests : ℕ
  pub total_embeddings : ℕ
  pub total_documents : ℕ
  pub total_storage_bytes : ℕ

abbrev pub in_month : ℕ → List ℕ → Aggregate → Bool
in_month org month a = a.organization_id == org && starts_with month a.date

-- One round of the loop over the days.
abbrev pub add_day : MonthlyUsage → Aggregate → MonthlyUsage
add_day t a = record t {
  total_queries = t.total_queries + a.queries_count;
  total_tokens = t.total_tokens + (a.input_tokens + a.output_tokens);
  total_api_requests = t.total_api_requests + a.api_requests;
  total_embeddings = t.total_embeddings + a.embeddings_count;
  total_storage_bytes =
      if ltb t.total_storage_bytes a.storage_bytes then a.storage_bytes else t.total_storage_bytes;
}

abbrev pub add_days : MonthlyUsage → List Aggregate → MonthlyUsage
add_days t [] = t
add_days t (a ∷ rows) = add_days (add_day t a) rows

abbrev pub no_usage : List ℕ → ℕ → MonthlyUsage
no_usage month documents = record {
  month = month;
  total_queries = 0;
  total_tokens = 0;
  total_api_requests = 0;
  total_embeddings = 0;
  total_documents = documents;
  total_storage_bytes = 0;
}

abbrev pub not_failed : ℕ → Document → Bool
not_failed org d = d.organization_id == org && not (same_status d.status failed)

-- `getCurrentMonthlyUsage`
pub current_monthly_usage : Table Aggregate → Table Document → ℕ → List ℕ → State → MonthlyUsage
current_monthly_usage aggregates documents org now s =
    add_days (no_usage (take 7 now) (documents.count_where (not_failed org) s.documents))
      (aggregates.find_many (in_month org (take 7 now)) s.aggregates)
