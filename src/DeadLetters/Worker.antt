-- ===== src/DeadLetters/Worker.antt =====
-- The workers' handlers of failed jobs (workers/index.js): a job is captured once its attempts are
-- used up. The worker of notifications has no such handler. The queue (a package) calls the handler after each failed attempt, with the number of
-- attempts made so far.
use doc_query.Base.{
  ℕ, zero, suc, ◌≡◌, ◌<◌, refl, ap, ◌∙◌, leb, true, Option, none, some, List, [], ◌∷◌, or_else,
  arith, if◌then◌else◌,
}
use doc_query.Context.{first_set}
use doc_query.DeadLetters.{Entry, Failed, error_text, capture_failure}
use doc_query.DeadLetters.Payload.{Json, text, object, field, no_fields}
use doc_query.Text.{codes}

pub record Job : Type 0 where
  pub id : ℕ
  pub name : List ℕ
  pub attempts_made : ℕ
  pub attempts : Option ℕ
  pub organization_id : Option ℕ
  pub document_id : List ℕ
  pub job_data : Json

-- `job.opts?.attempts || 1`
abbrev pub max_attempts : Job → ℕ
max_attempts job = first_set (or_else job.attempts 0 ∷ []) 1

-- The worker of audit jobs keeps the data of the job, that of document jobs the document.
pub data Worker : Type 0 where
  audit document : Worker

abbrev pub queue_name_of : Worker → List ℕ
queue_name_of audit = codes "audit"
queue_name_of document = codes "document"

abbrev pub kept_data : Worker → Job → Json
kept_data audit job = job.job_data
kept_data document job = object (field (codes "documentId") (text job.document_id) no_fields)

abbrev pub failed_of : Worker → Job → List ℕ → Failed
failed_of w job message = record {
  queue_name = queue_name_of w;
  job_id = job.id;
  job_name = job.name;
  organization_id = job.organization_id;
  payload = kept_data w job;
  error = error_text message;
  attempts = job.attempts_made;
}

module _ (redact : List ℕ → List ℕ) (w : Worker) where
  -- The handler of `failed`; the event may come without a job.
  pub on_failed : ℕ → Option Job → List ℕ → List Entry → List Entry
  on_failed id none message store = store
  on_failed id (some job) message store =
      if leb (max_attempts job) job.attempts_made
      then (capture_failure redact id (failed_of w job message) store).1
      else store

  -- The first `n` attempts of a job all fail, with a message each; the identifier of an entry is
  -- that of its time.
  abbrev pub fail_times : (ℕ → ℕ) → (ℕ → List ℕ) → Job → ℕ → List Entry → List Entry
  fail_times ids messages job zero store = store
  fail_times ids messages job (suc n) store =
      on_failed (ids n) (some (record job { attempts_made = suc n })) (messages n)
        (fail_times ids messages job n store)

  fails_early :
      (ids : ℕ → ℕ) (messages : ℕ → List ℕ) (job : Job) (n : ℕ) (store : List Entry)
      → n < max_attempts job
      → fail_times ids messages job n store ≡ store
  unfolding on_failed
  fails_early ids messages job zero store h = refl
  fails_early ids messages job (suc n) store h =
      let rest = fails_early ids messages job n store (omega (arith, h)) in ground (arith, h, rest)

  -- An audit or a document job of which every attempt fails, as many as its options allow, is captured once, after the last
  -- one, with the message of that attempt and the number of attempts; nothing else happens to the
  -- store.
  pub fail_times-captured :
      (ids : ℕ → ℕ) (messages : ℕ → List ℕ) (job : Job) (n : ℕ) (store : List Entry)
      → max_attempts job ≡ suc n
      → fail_times ids messages job (suc n) store
        ≡ (capture_failure redact
            (ids n)
            (failed_of w (record job { attempts_made = suc n }) (messages n))
            store).1
  unfolding on_failed
  fail_times-captured ids messages job n store h =
      let early = fails_early ids messages job n store (omega (arith, h)) in
      let last : leb (max_attempts job) (suc n) ≡ true = ground (arith, h) in
      ap (on_failed (ids n) (some (record job { attempts_made = suc n })) (messages n)) early
      ∙ ap
          (λ b.
            if b
            then (capture_failure redact (ids n)
                (failed_of w (record job { attempts_made = suc n }) (messages n)) store).1
            else store)
          last
