-- ===== src/Usage/Quota/Asked.antt =====
-- The checks of services/quota.service.js together with services/usage-metering.service.js: how many
-- queries of a month go through.
use doc_query.Base.{
  ℕ, zero, suc, ◌≡◌, ◌≤◌, refl, ap, sym, ◌∙◌, ◌+◌, ◌-◌, ==_iff, min, take, first, count, Bool, true,
  false, Option, none, some, List, [], ◌∷◌, arith, or_else,
}
use doc_query.Base.Table.{Table}
use doc_query.Base.Keyed.{first-snoc}
use doc_query.Documents.Rows.{Document}
use doc_query.Text.{starts_with}
use doc_query.Usage.{Usage, State, Aggregate, all_written, query, record_usage}
use doc_query.Usage.Quota.{
  Quota, queries, free, default_quota, of_organization, get_or_create_quota, or_created,
  check_quota,
}
use doc_query.Usage.Days.{OnePerDay, update_daily-OnePerDay}
use doc_query.Usage.Totals.{month_of, month_of-record_all}

-- One query, with no tokens in its metadata.
abbrev pub one_query : ℕ → List ℕ → Usage
one_query org now = record {
  organization_id = org;
  event_type = query;
  quantity = 1;
  metadata = record { input_tokens = 0; output_tokens = 0 };
  now = now;
}

starts_with-take : (a b : ℕ) (s : List ℕ) → a ≤ b → starts_with (take a s) (take b s) ≡ true
unfolding starts_with
starts_with-take zero b s h = refl
starts_with-take (suc a) zero s h = ground arith
starts_with-take (suc a) (suc b) [] h = refl
starts_with-take (suc a) (suc b) (c ∷ s) h = ground (arith, starts_with-take a b s)

module _ (quotas : Table Quota) (records : Table Usage) (table : Table Aggregate)
    (docs : Table Document) (org : ℕ) (now : List ℕ) where
  -- The quota that holds for the organization: its row, or the one of the free plan.
  abbrev pub quota_of : List Quota → Quota
  quota_of rows = or_else (first (of_organization org) rows) (default_quota org free)

  quota_of-or_created :
      (rows : List Quota) (found : Option Quota)
      → first (of_organization org) rows ≡ found
      → ((or_created quotas org free rows found).0 ≡ or_else found (default_quota org free))
        × (quota_of (or_created quotas org free rows found).1
            ≡ or_else found (default_quota org free))
  quota_of-or_created rows none absent =
      let new =
        first-snoc (of_organization org) rows (default_quota org free) absent
          ((==_iff org org).1 refl) in
      (
        refl,
        ap (λ r. or_else (first (of_organization org) r) (default_quota org free))
              (quotas.create_lem (default_quota org free) rows)
            ∙ ap (λ o. or_else o (default_quota org free)) new,
      )
  quota_of-or_created rows (some q) found =
      (refl, ap (λ o. or_else o (default_quota org free)) found)

  get_or_create-quota_of :
      (rows : List Quota)
      → ((get_or_create_quota quotas org free rows).0 ≡ quota_of rows)
        × (quota_of (get_or_create_quota quotas org free rows).1 ≡ quota_of rows)
  unfolding get_or_create_quota
  get_or_create-quota_of rows =
      let (same, kept) =
        quota_of-or_created rows (quotas.find (of_organization org) rows)
          (sym (quotas.find_lem (of_organization org) rows)) in
      let e =
        ap (λ o. or_else o (default_quota org free)) (quotas.find_lem (of_organization org) rows) in
      (same ∙ e, kept ∙ e)

  -- Requests for a query at one time: each is checked, and recorded when it goes through.
  abbrev pub ask : ℕ → List Quota → State → List Bool
  ask zero rows s = []
  ask (suc n) rows s =
      let (refused, after) = check_quota quotas table docs org queries now rows s in
      elim refused [
        | none ↦ true ∷ ask n after (record_usage records table all_written (one_query org now) s).1
        | some e ↦ false ∷ ask n after s
      ]

  abbrev pub queries_of : State → ℕ
  queries_of s = (month_of records table docs org now s).total_queries

  query_recorded :
      (s : State)
      → OnePerDay s.aggregates
      → OnePerDay (record_usage records table all_written (one_query org now) s).1.aggregates
        × (queries_of (record_usage records table all_written (one_query org now) s).1
            ≡ queries_of s + 1)
  unfolding record_usage
  query_recorded s one = (
    update_daily-OnePerDay (one_query org now) table s.aggregates one,
    (let sums = month_of-record_all records table docs org now (one_query org now ∷ []) s one in
        let today = starts_with-take 7 10 now (omega arith) in
        let org_is = (==_iff org org).1 refl in
        sums.0 ∙ ap (λ n. queries_of s + n) (rw (org_is, today) refl)),
  )

  -- Where each day has one row, of any number of queries that are asked for one after the other at
  -- one time, each checked against the quota and recorded as usage when it goes through, just as
  -- many go through as the limit of the quota leaves: those of the month so far are taken off it.
  pub ask_bounded :
      (n : ℕ) (rows : List Quota) (s : State)
      → OnePerDay s.aggregates
      → count (λ b. b) (ask n rows s)
        ≡ min n ((quota_of rows).limits.max_queries_per_month - queries_of s)
  unfolding check_quota
  ask_bounded zero rows s one = omega arith
  ask_bounded (suc n) rows s one =
      let (same, kept) = get_or_create-quota_of rows in
      let limit = ap (λ q. q.limits.max_queries_per_month) same in
      let stays = ap (λ q. q.limits.max_queries_per_month) kept in
      let (one', more) = query_recorded s one in
      let after = (get_or_create_quota quotas org free rows).1 in
      let s' = (record_usage records table all_written (one_query org now) s).1 in
      let passed = ask_bounded n after s' one' in
      let refused = ask_bounded n after s one in ground (arith, limit, stays, more, passed, refused)
