-- ===== src/RateLimit.antt =====
-- middleware/rate-limiter.middleware.js with `increment` of services/redis.service.js: how many
-- requests a window lets through. The counters of Redis (a package) are a parameter.
pub mod Window
mod Tests
use doc_query.Base.{
  ℕ, suc, ◌≡◌, Bool, true, false, ◌==◌, ◌+◌, ◌-◌, ◌/◌, ltb, Option, none, some, List, [], ◌∷◌, ◌++◌,
  or_else, if◌then◌else◌,
}
use doc_query.Text.{codes}
use doc_query.Context.{first_set}
use doc_query.Redis.{build_key}

-- The commands on counters, and their documented meaning while no key expires. `ttl` is none for a
-- key without expiry.
pub record Counters (C : Type 0) : Type 0 where
  pub ready : C → Bool
  pub value : List ℕ → C → ℕ
  pub incr : List ℕ → C → ℕ × C
  pub ttl : List ℕ → C → Option ℕ
  pub expire : List ℕ → ℕ → C → C
  pub incr-value : (k : List ℕ) (c : C) → (incr k c).0 ≡ suc (value k c)
  pub value-incr : (k : List ℕ) (c : C) → value k (incr k c).1 ≡ suc (value k c)
  pub ready-incr : (k : List ℕ) (c : C) → ready (incr k c).1 ≡ ready c
  pub value-expire : (k : List ℕ) (n : ℕ) (c : C) → value k (expire k n c) ≡ value k c
  pub ready-expire : (k : List ℕ) (n : ℕ) (c : C) → ready (expire k n c) ≡ ready c

-- The options; 0 stands for one that is not given. The window in seconds from milliseconds is
-- rounded up.
pub record Options : Type 0 where
  pub max : ℕ
  pub max_requests : ℕ
  pub window_sec : ℕ
  pub window_ms : ℕ
  pub prefix : List ℕ

abbrev pub limit_max : Options → ℕ
limit_max o = first_set (o.max ∷ o.max_requests ∷ []) 100

abbrev pub limit_window_sec : Options → ℕ
limit_window_sec o =
    if o.window_sec == 0
    then (if o.window_ms == 0 then 900 else (o.window_ms + 999) / 1000)
    else o.window_sec

-- Who asks: what `keyFn` gives, a user, or an address; the texts are those of the request.
pub data Client : Type 0 where
  by_key user_id ip : List ℕ → Client

abbrev pub identifier : Client → List ℕ
identifier (by_key k) = k
identifier (user_id u) = codes "user:" ++ u
identifier (ip a) = codes "ip:" ++ a

-- The headers, and whether the request goes on or gets 429.
pub record Headers : Type 0 where
  pub limit : ℕ
  pub remaining : ℕ
  pub reset : ℕ

pub data Decision : Type 0 where
  unlimited : Decision
  passes : Headers → Decision
  refuses : Headers → ℕ → Decision

-- `ttl > 0 ? ttl : limitWindowSec`
abbrev pub reset_seconds : ℕ → ℕ → ℕ
reset_seconds ttl window = if ltb 0 ttl then ttl else window

abbrev pub decide : Options → ℕ → ℕ → Decision
decide o n ttl =
    let headers : Headers = record {
      limit = limit_max o;
      remaining = limit_max o - n;
      reset = reset_seconds ttl (limit_window_sec o);
    } in
    if ltb (limit_max o) n then refuses headers headers.reset else passes headers

module _ {C : Type 0} (counters : Counters C) where
  -- The expiry of a new key.
  abbrev pub with_expiry : List ℕ → ℕ → Option ℕ → C → C
  with_expiry key seconds none c = if seconds == 0 then c else counters.expire key seconds c
  with_expiry key seconds (some t) c = c

  -- `increment`
  pub increment : List ℕ → ℕ → C → Option (ℕ × ℕ) × C
  increment key seconds c =
      if counters.ready c
      then (
        some ((counters.incr key c).0, or_else (counters.ttl key (counters.incr key c).1) seconds),
        with_expiry key seconds (counters.ttl key (counters.incr key c).1) (counters.incr key c).1,
      )
      else (none, c)

  abbrev pub key_of : Options → Client → List ℕ
  key_of o who = build_key (codes "ratelimit" ∷ o.prefix ∷ identifier who ∷ [])

  -- `!result`: fail open.
  abbrev pub decided : Options → Option (ℕ × ℕ) → Decision
  decided o none = unlimited
  decided o (some (n, ttl)) = decide o n ttl

  pub rate_limit : Options → Client → C → Decision × C
  unfolding increment
  rate_limit o who c =
      let (result, after) = increment (key_of o who) (limit_window_sec o) c in
      (decided o result, after)
