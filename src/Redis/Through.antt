-- ===== src/Redis/Through.antt =====
-- What a cache holds after a read through it and after a deletion by pattern
-- (services/redis.service.js).
use doc_query.Base.{
  ℕ, ◌≡◌, ◌⊎◌, refl, sym, ap, ◌∙◌, true, false, Bool-cases, inl, inr, Option, Option-cases, none,
  some, List, arith,
}
use doc_query.Redis.{Client, Scanner, redis_get, redis_set, stored, read_through, del_pattern}
use doc_query.Text.{text_eq, text_eq_iff, starts_with}

module _ {C V : Type 0} (client : Client C V) (ttl : ℕ) where
  -- What a write adds to the cache.
  stored-entry :
      (key k : List ℕ) (o : Option V) (c : C) (v : V)
      → client.ready c ≡ true
      → client.get k (stored client key ttl o c) ≡ some v
      → (client.get k c ≡ some v) ⊎ ((k ≡ key) × (o ≡ some v))
  unfolding redis_set
  stored-entry key k none c v up h = inl h
  stored-entry key k (some w) c v up h = elim (Bool-cases (text_eq key k)) [
    | inl same ↦
        let e = (text_eq_iff key k).0 same in
        let put : client.get k (client.set key w ttl c) ≡ some v = ground (arith, up, h) in
        inr (
          sym e,
          sym (client.get-set key w ttl c)
              ∙ ap (λ j. client.get j (client.set key w ttl c)) e
              ∙ put,
        )
    | inr differs ↦
        let put : client.get k (client.set key w ttl c) ≡ some v = ground (arith, up, h) in
        inl (sym (client.get-set_other key k w ttl c differs) ∙ put)
  ]

  stored-ready :
      (key : List ℕ) (o : Option V) (c : C)
      → client.ready c ≡ true
      → client.ready (stored client key ttl o c) ≡ true
  unfolding redis_set
  stored-ready key none c up = up
  stored-ready key (some w) c up = rw (stored, up) (client.ready-set key w ttl c ∙ up)

  -- A read through a sound client.get gives what the database gives.
  pub read_through-answer :
      (key : List ℕ) (o : Option V) (c : C)
      → client.ready c ≡ true
      → ((v : V) → client.get key c ≡ some v → o ≡ some v)
      → (read_through client key ttl o c).0 ≡ o
  unfolding redis_get
  read_through-answer key o c up sound = elim (Option-cases (client.get key c)) [
    | inl absent ↦ rw (up, absent) refl
    | inr (v, found) ↦ rw (up, found) (sym (sound v found))
  ]

  pub read_through-entry :
      (key k : List ℕ) (o : Option V) (c : C) (v : V)
      → client.ready c ≡ true
      → client.get k (read_through client key ttl o c).1 ≡ some v
      → (client.get k c ≡ some v) ⊎ ((k ≡ key) × (o ≡ some v))
  unfolding redis_get
  read_through-entry key k o c v up = elim (Option-cases (client.get key c)) [
    | inl absent ↦ rw (up, absent) (stored-entry key k o c v up)
    | inr (w, found) ↦ rw (up, found) (λ h. inl h)
  ]

  pub read_through-ready :
      (key : List ℕ) (o : Option V) (c : C)
      → client.ready c ≡ true
      → client.ready (read_through client key ttl o c).1 ≡ true
  unfolding redis_get
  read_through-ready key o c up = elim (Option-cases (client.get key c)) [
    | inl absent ↦ rw (up, absent) (stored-ready key o c up)
    | inr (w, found) ↦ rw (up, found) up
  ]

  -- What was read once is read again, whatever would be fetched.
  stored_found :
      (key : List ℕ) (o : Option V) (c : C) (v : V)
      → client.ready c ≡ true
      → o ≡ some v
      → client.get key (stored client key ttl o c) ≡ some v
  unfolding redis_set
  stored_found key none c v up h = absurd (ground (arith, h))
  stored_found key (some w) c v up h = rw (stored, up) (client.get-set key w ttl c ∙ h)

  read_through-found :
      (key : List ℕ) (o : Option V) (c : C) (v : V)
      → client.ready c ≡ true
      → (read_through client key ttl o c).0 ≡ some v
      → client.get key (read_through client key ttl o c).1 ≡ some v
  unfolding redis_get
  read_through-found key o c v up = elim (Option-cases (client.get key c)) [
    | inl absent ↦ rw (up, absent) (stored_found key o c v up)
    | inr (w, found) ↦ rw (up, found) (λ h. found ∙ h)
  ]

  read_through-hit :
      (key : List ℕ) (o : Option V) (c : C) (v : V)
      → client.ready c ≡ true
      → client.get key c ≡ some v
      → (read_through client key ttl o c).0 ≡ some v
  unfolding redis_get
  read_through-hit key o c v up found = rw (up, found) refl

  pub read_through-again :
      (key : List ℕ) (o o' : Option V) (c : C) (v : V)
      → client.ready c ≡ true
      → (read_through client key ttl o c).0 ≡ some v
      → (read_through client key ttl o' (read_through client key ttl o c).1).0 ≡ some v
  read_through-again key o o' c v up h =
      read_through-hit key o' (read_through client key ttl o c).1 v (read_through-ready key o c up)
        (read_through-found key o c v up h)

module _ {C V : Type 0} (cache : Scanner C V) where
  pub del_pattern-entry :
      (p k : List ℕ) (c : C) (v : V)
      → cache.client.ready c ≡ true
      → cache.client.get k (del_pattern cache p c) ≡ some v
      → (cache.client.get k c ≡ some v) × (starts_with p k ≡ false)
  unfolding del_pattern
  del_pattern-entry p k c v up h = elim (Bool-cases (starts_with p k)) [
    | inl drops ↦
        let e : none ≡ some v = sym (cache.get-delete p k c drops) ∙ ground (arith, up, h) in
        absurd (ground (arith, e))
    | inr keeps ↦
        let e : cache.client.get k (cache.delete_matching p c) ≡ some v = ground (arith, up, h) in
        (sym (cache.get-delete_other p k c keeps) ∙ e, keeps)
  ]

  pub del_pattern-ready :
      (p : List ℕ) (c : C)
      → cache.client.ready c ≡ true
      → cache.client.ready (del_pattern cache p c) ≡ true
  unfolding del_pattern
  del_pattern-ready p c up = rw (del_pattern, up) (cache.ready-delete p c ∙ up)
