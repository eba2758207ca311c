-- ===== src/Organizations/Controller.antt =====
-- modules/organizations/organization.controller.js: creation with the default quota, and the quota
-- and the usage of an organization, for its members.
use doc_query.Base.{ℕ, ◌≡◌, ap, ◌∙◌, Option, none, some, List, first}
use doc_query.Base.Errors.{Result, ok, err, forbidden, org_access_denied}
use doc_query.Base.Table.{Table}
use doc_query.Documents.Rows.{Document}
use doc_query.Members.Rows.{Membership, of_user}
use doc_query.Organizations.{Organization, Cached, Packages, Tables, create}
use doc_query.Redis.{Scanner}
use doc_query.Usage.{Aggregate, MonthlyUsage, State, current_monthly_usage}
use doc_query.Usage.Quota.{Quota, free, get_or_create_quota}

module _ (quotas : Table Quota) where
  -- `create`
  pub create_with_quota :
      {C : Type 0}
      → Packages
      → Scanner C Cached
      → List ℕ
      → ℕ
      → ℕ
      → Tables
      → C
      → List Quota
      → Organization × Tables × C × List Quota
  create_with_quota pk cache name user now t c rows =
      let (organization, t', c') = create pk cache name user now t c in
      (organization, t', c', (get_or_create_quota quotas organization.id free rows).1)

  module _ (members : Table Membership) (ms : List Membership) where
    abbrev for_member : {A : Type 0} → Option Membership → A → Result A
    for_member none a = err (forbidden org_access_denied)
    for_member (some m) a = ok a

    abbrev unless_denied : Option Membership → List Quota → List Quota → List Quota
    unless_denied none rows new = rows
    unless_denied (some m) rows new = new

    -- `getQuota`
    pub get_quota : ℕ → ℕ → List Quota → Result Quota × List Quota
    get_quota org user rows =
        let membership = members.find (of_user user org) ms in
        let (quota, after) = get_or_create_quota quotas org free rows in
        (for_member membership quota, unless_denied membership rows after)

    -- `getUsage`
    pub get_usage : Table Aggregate → Table Document → ℕ → ℕ → List ℕ → State → Result MonthlyUsage
    get_usage aggregates docs org user now s =
        for_member (members.find (of_user user org) ms)
          (current_monthly_usage aggregates docs org now s)

    -- Someone who is no member is refused both, and no quota is created for them.
    pub get_quota-stranger :
        (org user : ℕ) (rows : List Quota) (aggregates : Table Aggregate) (docs : Table Document)
        (now : List ℕ) (s : State)
        → first (of_user user org) ms ≡ none
        → (get_quota org user rows ≡ (err (forbidden org_access_denied), rows))
          × (get_usage aggregates docs org user now s ≡ err (forbidden org_access_denied))
    unfolding get_quota get_usage
    get_quota-stranger org user rows aggregates docs now s stranger =
        let e = members.find_lem (of_user user org) ms ∙ stranger in
        (
          ap
              (λ o. (
                for_member o (get_or_create_quota quotas org free rows).0,
                unless_denied o rows (get_or_create_quota quotas org free rows).1,
              ))
              e,
          ap (λ o. for_member o (current_monthly_usage aggregates docs org now s)) e,
        )
