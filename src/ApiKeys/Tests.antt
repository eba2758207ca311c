-- ===== src/ApiKeys/Tests.antt =====
-- Runs of the key service, with a hash that turns the text round in place of SHA-256, and the
-- theorems about it at such inputs.
use mathlib.Core.List.{reverse}
use doc_query.Base.{
  ◌↔◌, ℕ, ◌≡◌, refl, none, some, List, [], ◌∷◌, ◌+◌, ◌*◌, count, first, false, true, arith,
}
use doc_query.Base.Table.{Table, in_memory}
use doc_query.Base.Errors.{Code, AppError, ok, err}
use doc_query.Text.{codes, text_eq, starts_with, is_space}
use doc_query.ApiKeys.{
  key_prefix_text, is_past, raw_key, ms_per_day, create_api_key, validate_api_key, revoke_api_key,
  rotate_api_key,
}
use doc_query.ApiKeys.Rows.{ApiKey, has_hash}
use doc_query.ApiKeys.Validity.{validate_iff, rotate-swaps}

abbrev hash : List ℕ → List ℕ
hash = reverse

abbrev keys : Table ApiKey
keys = in_memory

abbrev raw : List ℕ
raw = raw_key (codes "ab") (codes "cd")

abbrev new_raw : List ℕ
new_raw = raw_key (codes "ef") (codes "gh")

abbrev key : ApiKey
key = record {
  id = 1;
  organization_id = 7;
  created_by = 3;
  name = codes "ci";
  key_prefix = codes "ab";
  hashed_secret = hash raw;
  scopes = codes "*" ∷ [];
  expires_at = some (1000 + 2 * ms_per_day);
  revoked_at = none;
  last_used_at = none;
}

abbrev other : ApiKey
other = record key { id = 2; organization_id = 8; hashed_secret = codes "x" }

abbrev renewed : ApiKey
renewed = record key { key_prefix = codes "ef"; hashed_secret = hash new_raw }

keyring : Unit {0}
unfolding create_api_key validate_api_key revoke_api_key rotate_api_key starts_with text_eq is_space
keyring = tt

created :
    (create_api_key hash keys 1 1000
      (codes "ab")
      (codes "cd")
      7
      3
      (codes " ci")
      none
      (some 2)
      (other ∷ [])).0
    ≡ ok (key, raw)
unfolding keyring
created = refl

outcomes :
    ((create_api_key hash keys 1 1000 (codes "ab") (codes "cd") 7 3 [] none none []).0
      ≡ err (AppError.bad_request Code.key_name_required))
    × ((validate_api_key hash keys 5 (codes "sk_live_1") (key ∷ [])).0
        ≡ err (AppError.unauthorized Code.api_key_invalid))
    × ((validate_api_key hash keys 999999999 raw (key ∷ [])).0
        ≡ err (AppError.unauthorized Code.api_key_expired))
    × ((revoke_api_key hash keys 5 8 1 (key ∷ [])).0
        ≡ err (AppError.not_found Code.api_key_not_found))
unfolding keyring
outcomes = (refl, refl, refl, refl)

no_such_hash : first (has_hash (hash raw)) (other ∷ []) ≡ none
unfolding keyring
no_such_hash = refl

found : first (has_hash (hash raw)) (other ∷ key ∷ []) ≡ some key
unfolding keyring
found = refl

raw_starts : starts_with (codes "dq_live_") raw ≡ true
unfolding keyring
raw_starts = refl

revoked :
    (revoke_api_key hash keys 1500 7 1 (other ∷ key ∷ [])).0
    ≡ ok (record key { revoked_at = some 1500 })
unfolding keyring
revoked = refl

rotated :
    (rotate_api_key hash keys 1500 (codes "ef") (codes "gh") 7 1 none (other ∷ key ∷ [])).0
    ≡ ok (renewed, new_raw)
unfolding keyring
rotated = refl

unused : first (has_hash (hash new_raw)) (other ∷ key ∷ []) ≡ none
unfolding keyring
unused = refl

differ : text_eq (hash new_raw) (hash raw) ≡ false
unfolding keyring
differ = refl

once : count (has_hash (hash raw)) (other ∷ key ∷ []) ≡ 1
unfolding keyring
once = refl

validate_iff_example : ((validate_api_key hash keys 2000 raw (other ∷ key ∷ [])).0 ≡ ok key) ↔ (
    (starts_with key_prefix_text raw ≡ true)
    × (first (has_hash (hash raw)) (other ∷ key ∷ []) ≡ some key)
    × (key.revoked_at ≡ none)
    × (is_past key.expires_at 2000 ≡ false))
validate_iff_example = validate_iff hash keys 2000 raw (other ∷ key ∷ []) key

rotate-swaps_example :
    ((validate_api_key hash keys 2000 new_raw
        (rotate_api_key hash keys 1500 (codes "ef") (codes "gh") 7 1 none (other ∷ key ∷ [])).1).0
      ≡ ok renewed)
    × ((validate_api_key hash keys 2000 raw
          (rotate_api_key hash keys 1500 (codes "ef") (codes "gh") 7 1 none (other ∷ key ∷ [])).1).0
        ≡ err (AppError.unauthorized Code.api_key_invalid))
rotate-swaps_example =
    rotate-swaps hash keys 1500 7 1 2000 (codes "ef") (codes "gh") new_raw raw none
      (other ∷ key ∷ []) renewed key (omega arith) rotated unused found refl once differ
