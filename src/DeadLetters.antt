-- ===== src/DeadLetters.antt =====
-- workers/dlq.service.js: the store of jobs that failed for good. Texts are lists of code units. The
-- redaction of messages (services/pii-detector.service.js) and the identifier and time of an entry
-- are parameters.
pub mod Payload
pub mod Redacted
pub mod Store
pub mod Worker
mod Tests
use doc_query.Base.{
  ℕ, zero, suc, ◌==◌, ◌+◌, ◌-◌, ltb, Bool, true, false, Option, none, some, List, [], ◌∷◌, ◌++◌,
  length, drop, keep, if◌then◌else◌,
}
use doc_query.Text.{codes, text_eq}
use doc_query.DeadLetters.Payload.{Json, sanitized}
use mathlib.Core.List.{reverse}

-- An error is a text, or an object with a message or none.
pub data ErrorValue : Type 0 where
  error_text : List ℕ → ErrorValue
  error_object : Option (List ℕ) → ErrorValue

-- What a worker gives, with its defaults filled in.
pub record Failed : Type 0 where
  pub queue_name : List ℕ
  pub job_id : ℕ
  pub job_name : List ℕ
  pub organization_id : Option ℕ
  pub payload : Json
  pub error : ErrorValue
  pub attempts : ℕ

pub record Entry : Type 0 where
  pub dlq_id : ℕ
  pub queue_name : List ℕ
  pub job_id : ℕ
  pub job_name : List ℕ
  pub organization_id : Option ℕ
  pub payload : Json
  pub error : List ℕ
  pub attempts : ℕ

abbrev pub max_entries : ℕ
max_entries = 1000

-- `typeof error === 'string' ? error : error?.message || 'Unknown failure'`
abbrev pub raw_message : ErrorValue → List ℕ
raw_message (error_text s) = s
raw_message (error_object none) = codes "Unknown failure"
raw_message (error_object (some [])) = codes "Unknown failure"
raw_message (error_object (some (c ∷ m))) = c ∷ m

-- `slice(-n)`; `slice(-0)` is the whole list.
abbrev pub slice_last : {A : Type 0} → ℕ → List A → List A
slice_last zero xs = xs
slice_last (suc n) xs = drop (length xs - suc n) xs

-- `shift`
abbrev pub shift : {A : Type 0} → List A → List A
shift xs = drop 1 xs

module _ (redact : List ℕ → List ℕ) where
  abbrev pub entry_of : ℕ → Failed → Entry
  entry_of id f = record {
    dlq_id = id;
    queue_name = f.queue_name;
    job_id = f.job_id;
    job_name = f.job_name;
    organization_id = f.organization_id;
    payload = sanitized f.payload;
    error = redact (raw_message f.error);
    attempts = f.attempts;
  }

  -- `captureFailure`
  unfoldable pub capture_failure : ℕ → Failed → List Entry → Entry × List Entry
  capture_failure id f store =
      let pushed = store ++ entry_of id f ∷ [] in
      (entry_of id f, if ltb max_entries (length pushed) then shift pushed else pushed)

-- `clear`
abbrev pub clear : List Entry → List Entry
clear store = []

-- The filters of `list`: an empty name is none.
abbrev pub of_queue : Option (List ℕ) → Entry → Bool
of_queue none e = true
of_queue (some []) e = true
of_queue (some (c ∷ q)) e = text_eq e.queue_name (c ∷ q)

abbrev pub of_organization : Option ℕ → Entry → Bool
of_organization none e = true
of_organization (some org) e = elim e.organization_id [ none ↦ false | some o ↦ o == org ]

-- `list`
unfoldable pub list_entries : Option (List ℕ) → Option ℕ → ℕ → List Entry → List Entry
list_entries queue org limit store =
    reverse (slice_last limit (keep (of_organization org) (keep (of_queue queue) store)))
