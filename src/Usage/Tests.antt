-- ===== src/Usage/Tests.antt =====
-- Two days of one organization, and a free plan.
use doc_query.Base.{List, ℕ, ◌≡◌, ◌+◌, ◌-◌, min, refl, false, [], ◌∷◌, count, arith}
use doc_query.Base.Table.{in_memory}
use doc_query.Text.{codes, text_eq, starts_with}
use doc_query.Usage.{
  Usage, EventType, State, query, llm_tokens, storage, update_daily_aggregate, record_usage,
  current_monthly_usage,
}
use doc_query.Usage.Quota.{Quota, pro, limits, get_or_create_quota, check_quota}
use doc_query.Usage.Quota.Asked.{ask, quota_of, queries_of, ask_bounded}
use doc_query.Usage.Totals.{
  record_all, month_of, in_total, query_amount, api_amount, embedding_amount, token_amount,
  month_of-record_all, month_of-tokens,
}

abbrev usage : EventType → ℕ → ℕ → ℕ → List ℕ → Usage
usage e n i o now = record {
  organization_id = 1;
  event_type = e;
  quantity = n;
  metadata = record { input_tokens = i; output_tokens = o };
  now = now;
}

abbrev monday : List ℕ
monday = codes "2026-03-02T09:00:00.000Z"

abbrev tuesday : List ℕ
tuesday = codes "2026-03-03T09:00:00.000Z"

abbrev april : List ℕ
april = codes "2026-04-01T09:00:00.000Z"

abbrev nothing : State
nothing = record { records = []; aggregates = []; documents = [] }

abbrev usages : List Usage
usages =
    usage query 2 0 0 monday
    ∷ usage llm_tokens 1 30 12 monday
    ∷ usage query 1 0 0 tuesday
    ∷ usage query 5 0 0 april
    ∷ []

sums :
    ((month_of in_memory in_memory in_memory 1 monday
        (record_all in_memory in_memory usages nothing)).total_queries
      ≡ 3)
    × ((month_of in_memory in_memory in_memory 1 monday
          (record_all in_memory in_memory usages nothing)).total_tokens
        ≡ 42)
unfolding record_usage update_daily_aggregate current_monthly_usage text_eq starts_with
sums = (refl, refl)

-- The storage of a month is the largest amount that one day added.
storage_of_days :
    (month_of in_memory in_memory in_memory 1 monday (
      record_all in_memory in_memory
        (usage storage 70 0 0 monday ∷ usage storage 50 0 0 tuesday ∷ [])
        nothing)).total_storage_bytes
    ≡ 70
unfolding record_usage update_daily_aggregate current_monthly_usage text_eq starts_with
storage_of_days = refl

-- The tokens of a usage that is no LLM call count when it is the first of its day, and not later.
order :
    ((month_of in_memory in_memory in_memory 1 monday (
        record_all in_memory in_memory
          (usage query 1 9 0 monday ∷ usage query 1 0 0 monday ∷ [])
          nothing)).total_tokens
      ≡ 9)
    × ((month_of in_memory in_memory in_memory 1 monday (
          record_all in_memory in_memory
            (usage query 1 0 0 monday ∷ usage query 1 9 0 monday ∷ [])
            nothing)).total_tokens
        ≡ 0)
unfolding record_usage update_daily_aggregate current_monthly_usage text_eq starts_with
order = (refl, refl)

month_of-record_all_example :
    ((month_of in_memory in_memory in_memory 1 monday
        (record_all in_memory in_memory usages nothing)).total_queries
      ≡ (month_of in_memory in_memory in_memory 1 monday nothing).total_queries
        + in_total in_memory in_memory in_memory 1 monday query_amount usages)
    × ((month_of in_memory in_memory in_memory 1 monday
          (record_all in_memory in_memory usages nothing)).total_api_requests
        ≡ (month_of in_memory in_memory in_memory 1 monday nothing).total_api_requests
          + in_total in_memory in_memory in_memory 1 monday api_amount usages)
    × ((month_of in_memory in_memory in_memory 1 monday
          (record_all in_memory in_memory usages nothing)).total_embeddings
        ≡ (month_of in_memory in_memory in_memory 1 monday nothing).total_embeddings
          + in_total in_memory in_memory in_memory 1 monday embedding_amount usages)
month_of-record_all_example =
    month_of-record_all in_memory in_memory in_memory 1 monday usages nothing
      (λ org date. omega arith)

tokens_come :
    (month_of in_memory in_memory in_memory 1 monday
      (record_all in_memory in_memory usages nothing)).total_tokens
    ≡ (month_of in_memory in_memory in_memory 1 monday nothing).total_tokens
      + in_total in_memory in_memory in_memory 1 monday token_amount usages
tokens_come =
    month_of-tokens in_memory in_memory in_memory 1 monday usages nothing (λ org date. omega arith)
      (
        (λ h. (refl, refl)),
        ((λ h. absurd (ground arith)), ((λ h. (refl, refl)), ((λ h. (refl, refl)), tt))),
      )

-- Three queries a month.
abbrev three : List Quota
three = record { organization_id = 1; plan = pro; limits = limits 1 2 3 4 5 6 } ∷ []

asked :
    ask in_memory in_memory in_memory in_memory 1 monday 2 three
      (record_all in_memory in_memory usages nothing)
    ≡ false ∷ false ∷ []
unfolding check_quota get_or_create_quota record_usage update_daily_aggregate current_monthly_usage
    text_eq starts_with
asked = refl

ask_bounded_example :
    count (λ b. b) (ask in_memory in_memory in_memory in_memory 1 monday 5 three nothing)
    ≡ min 5 (
        (quota_of in_memory in_memory in_memory in_memory 1 monday
          three).limits.max_queries_per_month
        - queries_of in_memory in_memory in_memory in_memory 1 monday nothing)
ask_bounded_example =
    ask_bounded in_memory in_memory in_memory in_memory 1 monday 5 three nothing
      (λ org date. omega arith)
