-- ===== src/DeadLetters/Tests.antt =====
-- Failures of two queues, and data with a secret.
use doc_query.Base.{List, ℕ, ◌≡◌, ◌&&◌, refl, none, some, [], ◌∷◌, take, keep, map}
use doc_query.Text.{codes, text_eq, starts_with, lower_unit}
use doc_query.DeadLetters.{
  Failed, error_object, max_entries, capture_failure, list_entries, of_queue, of_organization,
}
use doc_query.DeadLetters.Payload.{
  Json, text, object, array, field, no_fields, item, no_items, is_secret, redacted, sanitize,
  sanitized,
}
use doc_query.DeadLetters.Redacted.{
  SecretWord, SecretKey, Alike, AlikeFields, capture_failure-Alike,
}
use doc_query.DeadLetters.Worker.{Job, document, failed_of, fail_times, fail_times-captured}
use doc_query.DeadLetters.Store.{Call, captured, cleared, calls, failures, list_entries-failures}
use mathlib.Core.List.{reverse}

abbrev same : List ℕ → List ℕ
same s = s

abbrev payload : Json
payload = object (
    field (codes "apiToken") (text (codes "abc"))
      (field (codes "id") (text (codes "d1")) no_fields))

abbrev in_list : Json
in_list = object (field (codes "tokens") (array (item (text (codes "abc")) no_items)) no_fields)

redaction :
    sanitized payload
    ≡ object (
        field (codes "apiToken") (text redacted) (field (codes "id") (text (codes "d1")) no_fields))
unfolding sanitize is_secret starts_with lower_unit
redaction = refl

-- A secret in a list stays.
list_of_secrets : sanitized in_list ≡ in_list
unfolding sanitize is_secret starts_with lower_unit
list_of_secrets = refl

abbrev failed_job : ℕ → List ℕ → Failed
failed_job id queue = record {
  queue_name = queue;
  job_id = id;
  job_name = codes "default";
  organization_id = some 1;
  payload = payload;
  error = error_object none;
  attempts = 3;
}

abbrev jobs : List Call
jobs =
    captured 1 (failed_job 1 (codes "audit"))
    ∷ cleared
    ∷ captured 2 (failed_job 2 (codes "audit"))
    ∷ captured 3 (failed_job 3 (codes "document"))
    ∷ captured 4 (failed_job 4 (codes "audit"))
    ∷ []

newest_first :
    map (λ e. e.dlq_id) (list_entries (some (codes "audit")) none 50 (calls same jobs []))
    ≡ 4 ∷ 2 ∷ []
unfolding capture_failure list_entries text_eq
newest_first = refl

api_token : SecretKey (codes "apiToken")
unfolding lower_unit
api_token = record {
  before = codes "api";
  word = codes "Token";
  after = [];
  split = refl;
  is_word = SecretWord.token;
}

capture_failure-Alike_example :
    capture_failure same 1 (record (failed_job 1 (codes "audit")) { payload = payload }) []
    ≡ capture_failure same 1
        (record (failed_job 1 (codes "audit")) {
          payload = object (
              field
                (codes "apiToken")
                (text (codes "xyz"))
                (field (codes "id") (text (codes "d1")) no_fields));
        })
        []
capture_failure-Alike_example =
    capture_failure-Alike same 1 (failed_job 1 (codes "audit")) payload _ [] (
      Alike.objects (
        AlikeFields.secrets (codes "apiToken") (codes "abc") (codes "xyz") api_token
          (AlikeFields.fields (codes "id") (Alike.same (text (codes "d1"))) AlikeFields.no_more)))

list_entries-failures_example :
    list_entries (some (codes "audit")) (some 1) 2 (calls same jobs [])
    ≡ take 2 (
        keep
          (λ e. of_queue (some (codes "audit")) e && of_organization (some 1) e)
          (take max_entries (reverse (failures same jobs []))))
list_entries-failures_example = list_entries-failures same jobs (some (codes "audit")) (some 1) 1

-- A document job with three attempts.
abbrev job : Job
job = record {
  id = 8;
  name = codes "default";
  attempts_made = 0;
  attempts = some 3;
  organization_id = some 1;
  document_id = codes "d1";
  job_data = payload;
}

fail_times-captured_example :
    fail_times same document (λ i. i) (λ i. codes "no text") job 3 []
    ≡ (capture_failure same 2
        (failed_of document (record job { attempts_made = 3 }) (codes "no text"))
        []).1
fail_times-captured_example =
    fail_times-captured same document (λ i. i) (λ i. codes "no text") job 2 [] refl
