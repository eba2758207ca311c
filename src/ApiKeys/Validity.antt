-- ===== src/ApiKeys/Validity.antt =====
-- When a key lets a request in, from its creation to its revocation and rotation
-- (modules/api-keys/api-key.service.js).
use doc_query.Base.{
  true, ◌↔◌, some, count, Option-cases, inl, inr, ℕ, ◌≡◌, refl, true, false, none, some, Option,
  List, [], ◌∷◌, ◌++◌, first, arith, if◌then◌else◌,
}
use doc_query.Base.Table.{Table, update_where}
use doc_query.Base.Keyed.{
  Distinct, first-update_gone, first-update_where, first-snoc, first-update_fresh, first-key,
  first_passes,
}
use doc_query.Base.Errors.{Code, AppError, ok, err}
use doc_query.Text.{codes, text_eq, text_eq_iff, starts_with, starts_with-append}
use doc_query.ApiKeys.{
  key_prefix_text, raw_key, expiry, is_past, revoked_now, rotated, create_api_key, validate_api_key,
  revoke_api_key, rotate_api_key,
}
use doc_query.ApiKeys.Rows.{ApiKey, has_hash, by_id, in_org}

module _ (sha256 : List ℕ → List ℕ) (keys : Table ApiKey) where
  -- A raw key is accepted exactly when it has the prefix of the service and a row with its hash is
  -- stored, the first of which is neither revoked nor expired; that row is the answer.
  pub validate_iff :
      (t : ℕ) (raw : List ℕ) (rows : List ApiKey) (key : ApiKey)
      → ((validate_api_key sha256 keys t raw rows).0 ≡ ok key) ↔ (
          (starts_with key_prefix_text raw ≡ true)
          × (first (has_hash (sha256 raw)) rows ≡ some key)
          × (key.revoked_at ≡ none)
          × (is_past key.expires_at t ≡ false))
  unfolding validate_api_key
  validate_iff t raw rows key = (
    (λ e. elim (Option-cases (first (has_hash (sha256 raw)) rows)) [
      | inl missing ↦ absurd (ground (arith, keys.find_lem (has_hash (sha256 raw)) rows))
      | inr (k, found) ↦ (
        ground arith,
        ground (arith, keys.find_lem (has_hash (sha256 raw)) rows),
        ground (arith, keys.find_lem (has_hash (sha256 raw)) rows),
        ground (arith, keys.find_lem (has_hash (sha256 raw)) rows),
      )
    ]),
    (λ h. ground (arith, keys.find_lem (has_hash (sha256 raw)) rows)),
  )

  -- The raw key that a successful creation hands out is accepted from then on until it expires,
  -- and yields the row that was created, where no stored key has the same hash.
  pub create-validate :
      (new_id now org user t : ℕ) (prefix secret name : List ℕ) (scopes : Option (List (List ℕ)))
      (days : Option ℕ) (rows : List ApiKey) (row : ApiKey) (raw : List ℕ)
      → (create_api_key sha256 keys new_id now prefix secret org user name scopes days rows).0
        ≡ ok (row, raw)
      → first (has_hash (sha256 raw)) rows ≡ none
      → is_past (expiry days now none) t ≡ false
      → (validate_api_key sha256 keys t raw
          (create_api_key sha256 keys new_id now prefix secret org user name scopes days rows).1).0
        ≡ ok row
  unfolding create_api_key validate_api_key
  create-validate new_id now org user t prefix secret name scopes days rows row raw e fresh live =
      ground (
        arith,
        keys.create_lem row rows,
        keys.find_lem (has_hash (sha256 raw)) (rows ++ row ∷ []),
        first-snoc (has_hash (sha256 raw)) rows row fresh,
        text_eq_iff (sha256 raw) (sha256 raw),
        starts_with-append key_prefix_text (prefix ++ (codes "_" ++ secret)),
      )

  -- Once a revocation of a key has succeeded, the raw key is refused as revoked, at any time.
  pub revoke-validate :
      (now org t : ℕ) (raw : List ℕ) (rows : List ApiKey) (key result : ApiKey)
      → starts_with key_prefix_text raw ≡ true
      → first (has_hash (sha256 raw)) rows ≡ some key
      → (revoke_api_key sha256 keys now org key.id rows).0 ≡ ok result
      → (validate_api_key sha256 keys t raw (revoke_api_key sha256 keys now org key.id rows).1).0
        ≡ err (AppError.unauthorized Code.api_key_revoked)
  unfolding revoke_api_key validate_api_key
  revoke-validate now org t raw rows key result prefix found done = ground (
    arith,
    keys.update_lem (by_id key.id) (revoked_now now) rows,
    keys.find_lem (has_hash (sha256 raw)) (update_where (by_id key.id) (revoked_now now) rows),
    first-update_where (has_hash (sha256 raw)) (by_id key.id) (revoked_now now) rows (λ x. refl),
  )

  -- After a rotation the new raw key is accepted, even if the key was revoked before, unless the
  -- row's date of expiry has passed: without a new number of days the old date stays.
  pub rotate-validate :
      (now org id t : ℕ) (prefix secret raw : List ℕ) (days : Option ℕ) (rows : List ApiKey)
      (key : ApiKey)
      → Distinct (λ (k : ApiKey). k.id) rows
      → (rotate_api_key sha256 keys now prefix secret org id days rows).0 ≡ ok (key, raw)
      → first (has_hash (sha256 raw)) rows ≡ none
      → (validate_api_key sha256 keys t raw
          (rotate_api_key sha256 keys now prefix secret org id days rows).1).0
        ≡ (if is_past key.expires_at t
            then err (AppError.unauthorized Code.api_key_expired)
            else ok key)
  unfolding rotate_api_key validate_api_key
  rotate-validate now org id t prefix secret raw days rows key d e fresh =
      elim (Option-cases (first (in_org id org) rows)) [
        | inl missing ↦ absurd (ground (arith, keys.find_lem (in_org id org) rows))
        | inr (old, found) ↦
            let change = λ (k : ApiKey).
              rotated prefix (sha256 (raw_key prefix secret)) (expiry days now old.expires_at) k in
            ground (
              arith,
              keys.find_lem (in_org id org) rows,
              keys.update_lem (by_id id) change rows,
              keys.find_lem (has_hash (sha256 raw)) (update_where (by_id id) change rows),
              first_passes (λ (k : ApiKey). k.id) (in_org id org) rows old found,
              first-key (λ (k : ApiKey). k.id) (in_org id org) rows old d found,
              first-update_fresh (has_hash (sha256 (raw_key prefix secret))) (by_id id) change rows,
              text_eq_iff (sha256 raw) (sha256 raw),
              starts_with-append key_prefix_text (prefix ++ (codes "_" ++ secret)),
            )
      ]

  -- After a rotation the raw key that it replaces is refused, where only that row had its hash and
  -- the new key has another.
  pub rotate-refuses_old :
      (now org id t : ℕ) (prefix secret raw old_raw : List ℕ) (days : Option ℕ) (rows : List ApiKey)
      (key old : ApiKey)
      → (rotate_api_key sha256 keys now prefix secret org id days rows).0 ≡ ok (key, raw)
      → first (has_hash (sha256 old_raw)) rows ≡ some old
      → old.id ≡ id
      → count (has_hash (sha256 old_raw)) rows ≡ 1
      → text_eq (sha256 raw) (sha256 old_raw) ≡ false
      → (validate_api_key sha256 keys t old_raw
          (rotate_api_key sha256 keys now prefix secret org id days rows).1).0
        ≡ err (AppError.unauthorized Code.api_key_invalid)
  unfolding rotate_api_key validate_api_key
  rotate-refuses_old now org id t prefix secret raw old_raw days rows key old e found same one
        other =
      elim (Option-cases (keys.find (in_org id org) rows)) [
        | inl missing ↦ absurd (ground arith)
        | inr (k, at_org) ↦
            let change = λ (x : ApiKey).
              rotated prefix (sha256 (raw_key prefix secret)) (expiry days now k.expires_at) x in
            ground (
              arith,
              keys.update_lem (by_id id) change rows,
              keys.find_lem (has_hash (sha256 old_raw)) (update_where (by_id id) change rows),
              first-update_gone (has_hash (sha256 old_raw)) (by_id id) change rows old found one
                  (ground arith) (λ x. ground arith),
            )
      ]

  -- After a rotation the new raw key is accepted, even if the key was revoked before, unless the
  -- row's date of expiry has passed, and the raw key that it replaces is refused, where the
  -- identifiers are distinct, only the rotated row had the hash of the old raw key and none that of
  -- the new one.
  pub rotate-swaps :
      (now org id t : ℕ) (prefix secret raw old_raw : List ℕ) (days : Option ℕ) (rows : List ApiKey)
      (key old : ApiKey)
      → Distinct (λ (k : ApiKey). k.id) rows
      → (rotate_api_key sha256 keys now prefix secret org id days rows).0 ≡ ok (key, raw)
      → first (has_hash (sha256 raw)) rows ≡ none
      → first (has_hash (sha256 old_raw)) rows ≡ some old
      → old.id ≡ id
      → count (has_hash (sha256 old_raw)) rows ≡ 1
      → text_eq (sha256 raw) (sha256 old_raw) ≡ false
      → ((validate_api_key sha256 keys t raw
            (rotate_api_key sha256 keys now prefix secret org id days rows).1).0
          ≡ (if is_past key.expires_at t
              then err (AppError.unauthorized Code.api_key_expired)
              else ok key))
        × ((validate_api_key sha256 keys t old_raw
              (rotate_api_key sha256 keys now prefix secret org id days rows).1).0
            ≡ err (AppError.unauthorized Code.api_key_invalid))
  rotate-swaps now org id t prefix secret raw old_raw days rows key old d e fresh found same one
        other =
      (
        rotate-validate now org id t prefix secret raw days rows key d e fresh,
        rotate-refuses_old now org id t prefix secret raw old_raw days rows key old e found same one
            other,
      )
