-- ===== src/Usage/Totals.antt =====
-- The sums of getCurrentMonthlyUsage after any calls of recordUsage
-- (services/usage-metering.service.js).
use doc_query.Base.{ℕ, ◌≡◌, refl, ◌+◌, Bool, true, false, List, [], ◌∷◌, take, keep, All, arith}
use doc_query.Base.Table.{Table}
use doc_query.Documents.Rows.{Document}
use doc_query.Usage.{
  Usage, State, Aggregate, MonthlyUsage, EventType, Metadata, increments, all_written, query,
  api_request, embedding, llm_tokens, storage, document_upload, when, is_query, is_api_request,
  is_embedding, in_month, add_day, add_days, no_usage, not_failed, record_usage,
  current_monthly_usage,
}
use doc_query.Usage.Days.{
  sum_of, counted, Meters, OnePerDay, update_daily-OnePerDay, update_daily-Meters,
}

abbrev pub tokens : Aggregate → ℕ
tokens a = a.input_tokens + a.output_tokens

-- What a usage is meant to add to each total.
abbrev pub is_llm_tokens : EventType → Bool
is_llm_tokens llm_tokens = true
is_llm_tokens _ = false

abbrev pub query_amount : Usage → ℕ
query_amount u = when (is_query u.event_type) u.quantity

abbrev pub api_amount : Usage → ℕ
api_amount u = when (is_api_request u.event_type) u.quantity

abbrev pub embedding_amount : Usage → ℕ
embedding_amount u = when (is_embedding u.event_type) u.quantity

abbrev pub token_amount : Usage → ℕ
token_amount u =
    when (is_llm_tokens u.event_type) (u.metadata.input_tokens + u.metadata.output_tokens)

-- Tokens come with events of the type LLM_TOKENS alone.
abbrev pub TokensWithLlm : Usage → Type 0
TokensWithLlm u =
    is_llm_tokens u.event_type ≡ false
    → (u.metadata.input_tokens ≡ 0) × (u.metadata.output_tokens ≡ 0)

-- What an update adds to each column.
increments_add :
    (e : EventType) (n : ℕ) (m : Metadata) (a : Aggregate)
    → ((increments e n m a).queries_count ≡ a.queries_count + when (is_query e) n)
      × ((increments e n m a).api_requests ≡ a.api_requests + when (is_api_request e) n)
      × ((increments e n m a).embeddings_count ≡ a.embeddings_count + when (is_embedding e) n)
      × (tokens (increments e n m a)
          ≡ tokens a + when (is_llm_tokens e) (m.input_tokens + m.output_tokens))
increments_add query n m a = (refl, omega arith, omega arith, omega arith)
increments_add api_request n m a = (omega arith, refl, omega arith, omega arith)
increments_add embedding n m a = (omega arith, omega arith, refl, omega arith)
increments_add llm_tokens n m a = (omega arith, omega arith, omega arith, omega arith)
increments_add storage n m a = (omega arith, omega arith, omega arith, omega arith)
increments_add document_upload n m a = (omega arith, omega arith, omega arith, omega arith)

created_tokens :
    (e : EventType) (i o : ℕ)
    → (is_llm_tokens e ≡ false → (i ≡ 0) × (o ≡ 0))
    → i + o ≡ when (is_llm_tokens e) (i + o)
created_tokens llm_tokens i o h = refl
created_tokens query i o h = ground (arith, h)
created_tokens api_request i o h = ground (arith, h)
created_tokens embedding i o h = ground (arith, h)
created_tokens storage i o h = ground (arith, h)
created_tokens document_upload i o h = ground (arith, h)

-- The loop over the days sums each column.
add_days-sum_of :
    (rows : List Aggregate) (t : MonthlyUsage)
    → ((add_days t rows).total_queries ≡ t.total_queries + sum_of (λ a. a.queries_count) rows)
      × ((add_days t rows).total_api_requests
          ≡ t.total_api_requests + sum_of (λ a. a.api_requests) rows)
      × ((add_days t rows).total_embeddings
          ≡ t.total_embeddings + sum_of (λ a. a.embeddings_count) rows)
      × ((add_days t rows).total_tokens ≡ t.total_tokens + sum_of tokens rows)
add_days-sum_of [] t = (omega arith, omega arith, omega arith, omega arith)
add_days-sum_of (a ∷ rows) t =
    let (q, r, e, k) = add_days-sum_of rows (add_day t a) in
    (omega (arith, q), omega (arith, r), omega (arith, e), omega (arith, k))

module _ (records : Table Usage) (table : Table Aggregate) where
  -- Calls of `recordUsage`, one after the other, with every write taken.
  abbrev pub record_all : List Usage → State → State
  record_all [] s = s
  record_all (u ∷ us) s = record_all us (record_usage records table all_written u s).1

  record_all-OnePerDay :
      (us : List Usage) (s : State)
      → OnePerDay s.aggregates
      → OnePerDay (record_all us s).aggregates
  unfolding record_usage
  record_all-OnePerDay [] s one = one
  record_all-OnePerDay (u ∷ us) s one =
      record_all-OnePerDay us (record_usage records table all_written u s).1
        (update_daily-OnePerDay u table s.aggregates one)

  record_all-Meters :
      (f : Aggregate → ℕ) (amount : Usage → ℕ) (org : ℕ) (month : List ℕ) (us : List Usage)
      (s : State)
      → All (Meters f amount) us
      → OnePerDay s.aggregates
      → sum_of f (keep (in_month org month) (record_all us s).aggregates)
        ≡ sum_of f (keep (in_month org month) s.aggregates) + sum_of (counted org month amount) us
  unfolding record_usage
  record_all-Meters f amount org month [] s meters one = omega arith
  record_all-Meters f amount org month (u ∷ us) s meters one =
      let s' = (record_usage records table all_written u s).1 in
      let here = update_daily-Meters u table s.aggregates f amount org month meters.0 one in
      let rest =
        record_all-Meters f amount org month us s' meters.1
          (update_daily-OnePerDay u table s.aggregates one) in
      omega (arith, here, rest)

  All-always : {P : Usage → Type 0} → ((u : Usage) → P u) → (us : List Usage) → All P us
  All-always each [] = tt
  All-always each (u ∷ us) = (each u, All-always each us)

  token-Meters : (us : List Usage) → All TokensWithLlm us → All (Meters tokens token_amount) us
  token-Meters [] h = tt
  token-Meters (u ∷ us) h = (
    (
      created_tokens u.event_type u.metadata.input_tokens u.metadata.output_tokens h.0,
      λ a. (increments_add u.event_type u.quantity u.metadata a).3,
    ),
    token-Meters us h.1,
  )

  module _ (documents : Table Document) (org : ℕ) (now : List ℕ) where
    abbrev pub month_of : State → MonthlyUsage
    month_of s = current_monthly_usage table documents org now s

    month_of-sum_of :
        (s : State)
        → ((month_of s).total_queries
            ≡ sum_of (λ a. a.queries_count) (keep (in_month org (take 7 now)) s.aggregates))
          × ((month_of s).total_api_requests
              ≡ sum_of (λ a. a.api_requests) (keep (in_month org (take 7 now)) s.aggregates))
          × ((month_of s).total_embeddings
              ≡ sum_of (λ a. a.embeddings_count) (keep (in_month org (take 7 now)) s.aggregates))
          × ((month_of s).total_tokens
              ≡ sum_of tokens (keep (in_month org (take 7 now)) s.aggregates))
    unfolding current_monthly_usage
    month_of-sum_of s =
        rw (current_monthly_usage, table.find_many_lem)
          (let (q, r, e, k) =
              add_days-sum_of (keep (in_month org (take 7 now)) s.aggregates)
                (no_usage (take 7 now) (documents.count_where (not_failed org) s.documents)) in
            (omega (arith, q), omega (arith, r), omega (arith, e), omega (arith, k)))

    -- How much the usages count for in the month.
    abbrev pub in_total : (Usage → ℕ) → List Usage → ℕ
    in_total amount us = sum_of (counted org (take 7 now) amount) us

    -- Where each day has one row, calls of recordUsage whose writes are all taken, in whatever order
    -- and on whatever days, raise the totals of queries, of API requests and of embeddings of a month
    -- of an organization by just what the calls of that organization in that month stand for.
    pub month_of-record_all :
        (us : List Usage) (s : State)
        → OnePerDay s.aggregates
        → ((month_of (record_all us s)).total_queries
            ≡ (month_of s).total_queries + in_total query_amount us)
          × ((month_of (record_all us s)).total_api_requests
              ≡ (month_of s).total_api_requests + in_total api_amount us)
          × ((month_of (record_all us s)).total_embeddings
              ≡ (month_of s).total_embeddings + in_total embedding_amount us)
    month_of-record_all us s one =
        let (q, r, e, k) = month_of-sum_of s in
        let (q', r', e', k') = month_of-sum_of (record_all us s) in
        let inc =
          λ (u : Usage) (a : Aggregate). increments_add u.event_type u.quantity u.metadata a in
        let by = λ (f : Aggregate → ℕ) (n : Usage → ℕ) (m : (u : Usage) → Meters f n u).
          record_all-Meters f n org (take 7 now) us s (All-always m us) one in
        let queries = by (λ a. a.queries_count) query_amount (λ u. (refl, λ a. (inc u a).0)) in
        let requests = by (λ a. a.api_requests) api_amount (λ u. (refl, λ a. (inc u a).1)) in
        let embeddings =
          by (λ a. a.embeddings_count) embedding_amount (λ u. (refl, λ a. (inc u a).2)) in
        (
          omega (arith, q, q', queries),
          omega (arith, r, r', requests),
          omega (arith, e, e', embeddings),
        )

    -- So is the total of tokens raised, where tokens come only with events of LLM_TOKENS.
    pub month_of-tokens :
        (us : List Usage) (s : State)
        → OnePerDay s.aggregates
        → All TokensWithLlm us
        → (month_of (record_all us s)).total_tokens
          ≡ (month_of s).total_tokens + in_total token_amount us
    month_of-tokens us s one llm =
        let (q, r, e, k) = month_of-sum_of s in
        let (q', r', e', k') = month_of-sum_of (record_all us s) in
        let used =
          record_all-Meters tokens token_amount org (take 7 now) us s (token-Meters us llm) one in
        omega (arith, k, k', used)
