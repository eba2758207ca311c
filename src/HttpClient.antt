-- ===== src/HttpClient.antt =====
-- utils/http-client.js: requests to other services that are tried again. What the platform's `fetch`
-- brings at each attempt and the jitter of the delays are parameters; the waiting is a list of the
-- delays, in milliseconds.
pub mod Delivery
mod Tests
use doc_query.Base.{
  ℕ, zero, suc, Bool, true, false, not, ◌&&◌, ◌||◌, ◌==◌, ◌+◌, ◌*◌, ◌^◌, min, leb, ltb, Option,
  none, some, List, [], ◌∷◌, if◌then◌else◌,
}

-- The errors of `fetch` that the code tells apart, by name or code.
pub data FetchError : Type 0 where
  abort_error connection_refused connection_reset timed_out connect_timeout other_error : FetchError

-- What an attempt brings: a status with the body, if that can be read, or an error.
pub data Reply : Type 0 where
  response : ℕ → Option (List ℕ) → Reply
  failed : FetchError → Reply

-- `ExternalServiceError` with its status, an error of `fetch`, or one of reading the body.
pub data Error : Type 0 where
  external : ℕ → Error
  fetch_error : FetchError → Error
  bad_body : Error

-- `TRANSIENT_STATUS_CODES.has(…)`
abbrev pub is_transient_status : ℕ → Bool
is_transient_status n = n == 429 || n == 500 || n == 502 || n == 503 || n == 504

-- `isTransientError`
abbrev pub is_transient_error : Error → Bool
is_transient_error (external n) = is_transient_status n
is_transient_error (fetch_error other_error) = false
is_transient_error (fetch_error e) = true
is_transient_error bad_body = false

-- `getBackoffDelay`, with the jitter.
abbrev pub get_backoff_delay : ℕ → ℕ → ℕ → ℕ
get_backoff_delay base jitter attempt = min (base * 2 ^ attempt + jitter) 10000

-- `response.ok`
abbrev pub is_ok : ℕ → Bool
is_ok n = leb 200 n && leb n 299

-- How an attempt ends: with a result, an error that leaves the function, another attempt, or `break`.
pub data Round : Type 0 where
  gives : List ℕ → Round
  throws again stops : Error → Round

-- The `catch` block, for an error that is no permanent one.
pub on_error : ℕ → ℕ → Error → Round
on_error attempt retries e =
    if ltb attempt retries && is_transient_error e
    then again e
    else if leb retries attempt
    then stops e
    else throws e

-- An attempt.
pub round : ℕ → ℕ → Reply → Round
unfolding on_error
round attempt retries (failed e) = on_error attempt retries (fetch_error e)
round attempt retries (response status body) =
    if is_ok status
    then elim body [ some b ↦ gives b | none ↦ on_error attempt retries bad_body ]
    else if not (is_transient_status status)
    then throws (external status)
    else if ltb attempt retries
    then again (external status)
    else on_error attempt retries (external status)

-- What the loop comes to: a result, an error, or the last error of all attempts.
pub data Ending : Type 0 where
  returned : List ℕ → Ending
  thrown : Error → Ending
  exhausted : Option Error → Ending

-- What follows an attempt, with the delay before another one.
abbrev pub proceed : ℕ → (Option Error → Ending × List ℕ) → Round → Ending × List ℕ
proceed delay rest (gives b) = (returned b, [])
proceed delay rest (throws e) = (thrown e, [])
proceed delay rest (stops e) = (exhausted (some e), [])
proceed delay rest (again e) = let (ending, delays) = rest (some e) in (ending, delay ∷ delays)

module _ (fetch : ℕ → Reply) (retries base : ℕ) (jitter : ℕ → ℕ) where
  -- The loop, for a number of attempts, with the delays.
  pub attempts : ℕ → ℕ → Option Error → Ending × List ℕ
  unfolding round
  attempts zero attempt last = (exhausted last, [])
  attempts (suc n) attempt last =
      proceed (get_backoff_delay base (jitter attempt) attempt) (attempts n (suc attempt))
        (round attempt retries (fetch attempt))

-- The fallback, or the last error.
abbrev pub settle : Option (List ℕ) → Ending → Ending
settle (some b) (exhausted e) = returned b
settle none (exhausted none) = thrown (external 0)
settle none (exhausted (some e)) = thrown e
settle fallback (returned b) = returned b
settle fallback (thrown e) = thrown e

pub resilient_fetch : (ℕ → Reply) → ℕ → ℕ → (ℕ → ℕ) → Option (List ℕ) → Ending × List ℕ
unfolding attempts
resilient_fetch fetch retries base jitter fallback =
    let (ending, delays) = attempts fetch retries base jitter (suc retries) 0 none in
    (settle fallback ending, delays)
