-- ===== src/HttpClient/Delivery.antt =====
-- When a request that is tried again gets its answer (utils/http-client.js).
use doc_query.Base.{
  ℕ, zero, suc, ◌≡◌, refl, ◌∙◌, ap, ◌≤◌, ◌<◌, ◌+◌, ◌==◌, ==_iff, Bool, true, not, ◌&&◌, ltb,
  Bool-cases, inl, inr, Option, none, some, List, length, All, arith,
}
use doc_query.HttpClient.{
  Reply, response, failed, Error, external, fetch_error, is_ok, is_transient_status,
  is_transient_error, Round, gives, again, throws, stops, on_error, round, Ending, returned,
  attempts, proceed, settle, resilient_fetch,
}

-- A reply after which another attempt makes sense.
abbrev pub is_transient : Reply → Bool
is_transient (failed e) = is_transient_error (fetch_error e)
is_transient (response status body) = not (is_ok status) && is_transient_status status

round-again :
    (attempt retries : ℕ) (r : Reply)
    → ltb attempt retries ≡ true
    → is_transient r ≡ true
    → (e : Error) × (round attempt retries r ≡ again e)
unfolding round on_error
round-again attempt retries (failed e) h k = (fetch_error e, ground (arith, h, k))
round-again attempt retries (response status body) h k = (external status, ground (arith, h, k))

round-gives :
    (attempt retries status : ℕ) (b : List ℕ)
    → is_ok status ≡ true
    → round attempt retries (response status (some b)) ≡ gives b
unfolding round
round-gives attempt retries status b h = ground (arith, h)

settle_returned :
    (fallback : Option (List ℕ)) (b : List ℕ) → settle fallback (returned b) ≡ returned b
settle_returned none b = refl
settle_returned (some f) b = refl

-- Delays that are never longer than ten seconds.
abbrev pub Short : List ℕ → Type 0
Short = All (λ d. d ≤ 10000)

proceed-Short :
    (delay : ℕ) (rest : Option Error → Ending × List ℕ) (r : Round)
    → delay ≤ 10000
    → ((last : Option Error) → Short (rest last).1)
    → Short (proceed delay rest r).1
proceed-Short delay rest (gives b) d h = tt
proceed-Short delay rest (throws e) d h = tt
proceed-Short delay rest (stops e) d h = tt
proceed-Short delay rest (again e) d h = (d, h (some e))

module _ (fetch : ℕ → Reply) (retries base : ℕ) (jitter : ℕ → ℕ) where
  attempts-Short :
      (n attempt : ℕ) (last : Option Error)
      → Short (attempts fetch retries base jitter n attempt last).1
  unfolding attempts
  attempts-Short zero attempt last = tt
  attempts-Short (suc n) attempt last =
      proceed-Short _ (attempts fetch retries base jitter n (suc attempt))
        (round attempt retries (fetch attempt)) (omega arith) (attempts-Short n (suc attempt))

  module _ (k status : ℕ) (b : List ℕ) (early : (i : ℕ) → i < k → is_transient (fetch i) ≡ true)
      (good : fetch k ≡ response status (some b)) (fine : is_ok status ≡ true)
      (allowed : k ≤ retries) where
    attempts-delivers :
        (n attempt : ℕ) (last : Option Error)
        → attempt + n ≡ suc retries
        → attempt ≤ k
        → ((attempts fetch retries base jitter n attempt last).0 ≡ returned b)
          × (attempt + length (attempts fetch retries base jitter n attempt last).1 ≡ k)
    unfolding attempts
    attempts-delivers zero attempt last total below = absurd (omega (arith, total, below, allowed))
    attempts-delivers (suc n) attempt last total below = elim (Bool-cases (attempt == k)) [
      | inl e ↦
          let here = (==_iff attempt k).0 e in
          let now : round attempt retries (fetch attempt) ≡ gives b =
            ap (λ i. round attempt retries (fetch i)) here
            ∙ ap (round attempt retries) good
            ∙ round-gives attempt retries status b fine in
          rw (now, attempts) (refl, omega (arith, here))
      | inr ne ↦
          let earlier : attempt < k = ground (arith, ne, below) in
          let (e, now) =
            round-again attempt retries (fetch attempt) (ground (arith, earlier, allowed))
              (early attempt earlier) in
          let later =
            attempts-delivers n (suc attempt) (some e) (omega (arith, total))
              (omega (arith, earlier)) in
          rw (now, attempts) (later.0, omega (arith, later.1))
    ]

  -- Where the service first answers well at attempt `k`, counted from 0 and no later than the last
  -- retry, and all replies before are ones to try again after, the call gives that answer, after `k`
  -- delays of at most ten seconds each, whatever the fallback is.
  pub resilient_fetch_delivers :
      (k status : ℕ) (b : List ℕ) (fallback : Option (List ℕ))
      → ((i : ℕ) → i < k → is_transient (fetch i) ≡ true)
      → fetch k ≡ response status (some b)
      → is_ok status ≡ true
      → k ≤ retries
      → ((resilient_fetch fetch retries base jitter fallback).0 ≡ returned b)
        × (length (resilient_fetch fetch retries base jitter fallback).1 ≡ k)
        × Short (resilient_fetch fetch retries base jitter fallback).1
  unfolding resilient_fetch
  resilient_fetch_delivers k status b fallback early good fine allowed =
      let run =
        attempts-delivers k status b early good fine allowed (suc retries) 0 none (omega arith)
          (omega arith) in
      (
        ap (settle fallback) run.0 ∙ settle_returned fallback b,
        omega (arith, run.1),
        attempts-Short (suc retries) 0 none,
      )
