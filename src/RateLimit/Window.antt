-- ===== src/RateLimit/Window.antt =====
-- The requests of one client in one window (middleware/rate-limiter.middleware.js).
use doc_query.Base.{
  ℕ, zero, suc, ◌≡◌, refl, ◌∙◌, ◌-◌, min, ltb, Bool, true, false, Option, none, some, List, [], ◌∷◌,
  count, arith, if◌then◌else◌,
}
use doc_query.RateLimit.{
  Counters, Headers, Options, Client, Decision, unlimited, passes, refuses, limit_max,
  limit_window_sec, with_expiry, increment, key_of, rate_limit,
}

abbrev pub lets_through : Decision → Bool
lets_through unlimited = true
lets_through (passes h) = true
lets_through (refuses h n) = false

below_limit :
    (m v n : ℕ) (h : Headers) (r : ℕ)
    → n ≡ suc v
    → lets_through (if ltb m n then refuses h r else passes h) ≡ ltb v m
below_limit m v n h r e = ground (arith, e)

module _ {C : Type 0} (counters : Counters C) (o : Options) (who : Client) where
  -- A number of requests, one after the other.
  abbrev pub requests : ℕ → C → List Decision
  requests zero c = []
  requests (suc n) c = (rate_limit counters o who c).0 ∷ requests n (rate_limit counters o who c).1

  with_expiry-value :
      (s : ℕ) (t : Option ℕ) (c : C)
      → counters.value (key_of counters o who) (with_expiry counters (key_of counters o who) s t c)
        ≡ counters.value (key_of counters o who) c
  with_expiry-value s none c = ground (arith, counters.value-expire (key_of counters o who) s c)
  with_expiry-value s (some t) c = refl

  with_expiry-ready :
      (s : ℕ) (t : Option ℕ) (c : C)
      → counters.ready (with_expiry counters (key_of counters o who) s t c) ≡ counters.ready c
  with_expiry-ready s none c = ground (arith, counters.ready-expire (key_of counters o who) s c)
  with_expiry-ready s (some t) c = refl

  -- A request counts, and passes as long as the count was below the limit.
  one_request :
      (c : C)
      → counters.ready c ≡ true
      → (counters.ready (rate_limit counters o who c).1 ≡ true)
        × (counters.value (key_of counters o who) (rate_limit counters o who c).1
            ≡ suc (counters.value (key_of counters o who) c))
        × (lets_through (rate_limit counters o who c).0
            ≡ ltb (counters.value (key_of counters o who) c) (limit_max o))
  unfolding rate_limit increment
  one_request c up =
      let k = key_of counters o who in
      let c' = (counters.incr k c).1 in
      let w = limit_window_sec o in
      rw (up, rate_limit, increment)
        (
          with_expiry-ready w (counters.ttl k c') c' ∙ counters.ready-incr k c ∙ up,
          with_expiry-value w (counters.ttl k c') c' ∙ counters.value-incr k c,
          below_limit (limit_max o) (counters.value k c) _ _ _ (counters.incr-value k c),
        )

  -- With the store of counters there, a client whose counter stands at some number gets through with
  -- just as many of their next requests in the window as are left to the limit, and no more.
  pub requests_bounded :
      (n : ℕ) (c : C)
      → counters.ready c ≡ true
      → count lets_through (requests n c)
        ≡ min n (limit_max o - counters.value (key_of counters o who) c)
  requests_bounded zero c up = omega arith
  requests_bounded (suc n) c up =
      let (ready, value, decision) = one_request c up in
      let rest = requests_bounded n (rate_limit counters o who c).1 ready in
      ground (arith, value, decision, rest)
