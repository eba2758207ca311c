-- ===== src/Redis.antt =====
-- services/redis.service.js over the client of Redis (a package): a call gives its default where the
-- client is not ready. Values are stored as JSON and come back as they were.
pub mod Through
pub mod Sample
use doc_query.Base.{
  ℕ, ◌≡◌, Bool, true, false, Option, none, some, List, [], ◌∷◌, ◌++◌, if◌then◌else◌,
}
use doc_query.Text.{codes, text_eq, starts_with}

-- The client, and the documented meaning of its commands on a key that has not expired.
pub record Client (C V : Type 0) : Type 0 where
  pub ready : C → Bool
  pub get : List ℕ → C → Option V
  pub set : List ℕ → V → ℕ → C → C
  pub ready-set : (k : List ℕ) (v : V) (ttl : ℕ) (c : C) → ready (set k v ttl c) ≡ ready c
  pub get-set : (k : List ℕ) (v : V) (ttl : ℕ) (c : C) → get k (set k v ttl c) ≡ some v
  pub get-set_other :
      (k j : List ℕ) (v : V) (ttl : ℕ) (c : C)
      → text_eq k j ≡ false
      → get j (set k v ttl c) ≡ get j c

-- `parts.join(':')`
abbrev join_colon : List (List ℕ) → List ℕ
join_colon [] = []
join_colon (p ∷ []) = p
join_colon (p ∷ q ∷ ps) = p ++ 58 ∷ join_colon (q ∷ ps)

-- `buildKey`
abbrev pub build_key : List (List ℕ) → List ℕ
build_key parts = join_colon (codes "docquery" ∷ parts)

module _ {C V : Type 0} (client : Client C V) where
  -- `get`
  unfoldable pub redis_get : List ℕ → C → Option V
  redis_get k c = if client.ready c then client.get k c else none

  -- `set`, with whether it succeeded.
  unfoldable pub redis_set : List ℕ → V → ℕ → C → Bool × C
  redis_set k v ttl c = if client.ready c then (true, client.set k v ttl c) else (false, c)

  -- What is stored with `set` if there is something, and what is read from the cache or else fetched
  -- and stored.
  abbrev pub stored : List ℕ → ℕ → Option V → C → C
  stored key ttl none c = c
  stored key ttl (some v) c = (redis_set key v ttl c).1

  abbrev pub or_fetch : List ℕ → ℕ → Option V → Option V → C → Option V × C
  or_fetch key ttl (some cached) fetched c = (some cached, c)
  or_fetch key ttl none fetched c = (fetched, stored key ttl fetched c)

  abbrev pub read_through : List ℕ → ℕ → Option V → C → Option V × C
  read_through key ttl fetched c = or_fetch key ttl (redis_get key c) fetched c

-- The client can also scan for the keys that match a pattern and delete them; the pattern is given
-- by what stands in front of its `*`. A full scan returns every key that is there from start to end.
pub record Scanner (C V : Type 0) : Type 0 where
  pub client : Client C V
  pub delete_matching : List ℕ → C → C
  pub get-delete :
      (p k : List ℕ) (c : C) → starts_with p k ≡ true → client.get k (delete_matching p c) ≡ none
  pub get-delete_other :
      (p k : List ℕ) (c : C)
      → starts_with p k ≡ false
      → client.get k (delete_matching p c) ≡ client.get k c
  pub ready-delete : (p : List ℕ) (c : C) → client.ready (delete_matching p c) ≡ client.ready c

-- `delPattern`
unfoldable pub del_pattern : {C V : Type 0} → Scanner C V → List ℕ → C → C
del_pattern cache p c = if cache.client.ready c then cache.delete_matching p c else c
