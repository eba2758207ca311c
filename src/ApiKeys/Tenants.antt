-- ===== src/ApiKeys/Tenants.antt =====
-- Keys of other organizations (modules/api-keys/api-key.service.js).
use doc_query.Base.{
  ℕ, ◌≡◌, Bool, not, ◌==◌, Option, List, first, keep, arith, Option-cases, inl, inr,
}
use doc_query.Base.Table.{Table}
use doc_query.Base.Keyed.{Distinct, keep-update_where, first_passes}
use doc_query.ApiKeys.{raw_key, expiry, revoked_now, rotated, revoke_api_key, rotate_api_key}
use doc_query.ApiKeys.Rows.{ApiKey, by_id, in_org}

abbrev pub elsewhere : ℕ → ApiKey → Bool
elsewhere org k = not (k.organization_id == org)

module _ (sha256 : List ℕ → List ℕ) (keys : Table ApiKey) where
  -- A revocation or a rotation that is asked for in one organization, whatever key it names,
  -- leaves the keys of all other organizations as they are, in their order.
  pub other_keys_stay :
      (now org id : ℕ) (prefix secret : List ℕ) (days : Option ℕ) (rows : List ApiKey)
      → Distinct (λ (k : ApiKey). k.id) rows
      → (keep (elsewhere org) (revoke_api_key sha256 keys now org id rows).1
          ≡ keep (elsewhere org) rows)
        × (keep (elsewhere org) (rotate_api_key sha256 keys now prefix secret org id days rows).1
            ≡ keep (elsewhere org) rows)
  unfolding revoke_api_key rotate_api_key
  other_keys_stay now org id prefix secret days rows d =
      elim (Option-cases (first (in_org id org) rows)) [
        | inl missing ↦ (
          ground (arith, keys.find_lem (in_org id org) rows),
          ground (arith, keys.find_lem (in_org id org) rows),
        )
        | inr (k, found) ↦
            let change = λ (x : ApiKey).
              rotated prefix (sha256 (raw_key prefix secret)) (expiry days now k.expires_at) x in
            (
              ground (
                arith,
                keys.find_lem (in_org id org) rows,
                keys.update_lem (by_id id) (revoked_now now) rows,
                first_passes (λ (x : ApiKey). x.id) (in_org id org) rows k found,
                keep-update_where (λ (x : ApiKey). x.id) (elsewhere org) (in_org id org)
                    (revoked_now now) rows k d found,
              ),
              ground (
                arith,
                keys.find_lem (in_org id org) rows,
                keys.update_lem (by_id id) change rows,
                first_passes (λ (x : ApiKey). x.id) (in_org id org) rows k found,
                keep-update_where (λ (x : ApiKey). x.id) (elsewhere org) (in_org id org) change rows
                    k d found,
              ),
            )
      ]
