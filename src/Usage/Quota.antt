-- ===== src/Usage/Quota.antt =====
-- services/quota.service.js and middleware/quota.middleware.js: the limits of a plan, and the checks
-- against the usage of the month.
pub mod Asked
use doc_query.Base.{ℕ, ◌==◌, leb, Bool, true, false, Option, none, some, List, if◌then◌else◌}
use doc_query.Base.Table.{Table}
use doc_query.Documents.Rows.{Document}
use doc_query.Usage.{State, Aggregate, MonthlyUsage, current_monthly_usage}

pub data Plan : Type 0 where
  free pro team enterprise : Plan

pub record Limits : Type 0 where
  pub max_documents : ℕ
  pub max_storage_bytes : ℕ
  pub max_queries_per_month : ℕ
  pub max_tokens_per_month : ℕ
  pub max_api_requests : ℕ
  pub max_members : ℕ

-- `PLAN_DEFAULTS`
abbrev pub limits : ℕ → ℕ → ℕ → ℕ → ℕ → ℕ → Limits
limits documents bytes queries tokens requests members = record {
  max_documents = documents;
  max_storage_bytes = bytes;
  max_queries_per_month = queries;
  max_tokens_per_month = tokens;
  max_api_requests = requests;
  max_members = members;
}

abbrev pub plan_defaults : Plan → Limits
plan_defaults free = limits 100 524288000 1000 1000000 10000 5
plan_defaults pro = limits 1000 10737418240 10000 10000000 100000 20
plan_defaults team = limits 10000 107374182400 100000 100000000 1000000 100
plan_defaults enterprise = limits 1000000 1099511627776 10000000 1000000000 10000000 10000

-- OrganizationQuota
pub record Quota : Type 0 where
  pub organization_id : ℕ
  pub plan : Plan
  pub limits : Limits

abbrev pub of_organization : ℕ → Quota → Bool
of_organization org q = q.organization_id == org

abbrev pub default_quota : ℕ → Plan → Quota
default_quota org plan = record { organization_id = org; plan = plan; limits = plan_defaults plan }

abbrev pub or_created : Table Quota → ℕ → Plan → List Quota → Option Quota → Quota × List Quota
or_created quotas org plan rows (some existing) = (existing, rows)
or_created quotas org plan rows none =
    (default_quota org plan, quotas.create (default_quota org plan) rows)

-- `getOrCreateQuota`
unfoldable pub get_or_create_quota : Table Quota → ℕ → Plan → List Quota → Quota × List Quota
get_or_create_quota quotas org plan rows =
    or_created quotas org plan rows (quotas.find (of_organization org) rows)

pub data CheckType : Type 0 where
  queries documents api_requests storage : CheckType

-- The codes of `QuotaExceededError`; its status is 429.
pub data Exceeded : Type 0 where
  query_quota_exceeded document_quota_exceeded api_request_quota_exceeded : Exceeded

abbrev pub refuse_if : Bool → Exceeded → Option Exceeded
refuse_if true e = some e
refuse_if false e = none

abbrev pub verdict : CheckType → MonthlyUsage → Limits → Option Exceeded
verdict queries u q = refuse_if (leb q.max_queries_per_month u.total_queries) query_quota_exceeded
verdict documents u q = refuse_if (leb q.max_documents u.total_documents) document_quota_exceeded
verdict api_requests u q =
    refuse_if (leb q.max_api_requests u.total_api_requests) api_request_quota_exceeded
verdict storage u q = none

module _ (quotas : Table Quota) (aggregates : Table Aggregate) (docs : Table Document) where
  -- `checkQuota`: the error it throws, if it throws one.
  unfoldable pub check_quota :
      ℕ → CheckType → List ℕ → List Quota → State → Option Exceeded × List Quota
  unfolding get_or_create_quota current_monthly_usage
  check_quota org check now rows s =
      let (quota, after) = get_or_create_quota quotas org free rows in
      (verdict check (current_monthly_usage aggregates docs org now s) quota.limits, after)

  -- `requireQuota`; a request without an organization goes on.
  pub require_quota :
      Option ℕ → CheckType → List ℕ → List Quota → State → Option Exceeded × List Quota
  unfolding check_quota
  require_quota none check now rows s = (none, rows)
  require_quota (some org) check now rows s = check_quota org check now rows s
