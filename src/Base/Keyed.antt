-- ===== src/Base/Keyed.antt =====
-- Rows that are known by a key: how the rows that pass a test change when the row that was found,
-- known by its key, is updated or deleted (`update` and `delete` with `where: { id }`).
use doc_query.Base.Tests.{◌==◌, ==_iff, if◌then◌else◌, Bool-cases}
use Prim.Native.Nat.{ℕ, ◌+◌, ◌≤◌}
use mathlib.Core.Path.{◌≡◌, refl, subst}
use mathlib.Core.Logic.{◌≢◌, inl, inr}
use mathlib.Core.Bool.{Bool, true, false, not}
use mathlib.Core.Option.{none, some}
use mathlib.Core.List.{List, [], ◌∷◌, ◌++◌}
use native.Mathlib.Omega.{arith}
use doc_query.Base.Lists.{first, keep, count, count-append}
use doc_query.Base.Table.{update_where}

-- A test, as a number.
abbrev pub one_if : Bool → ℕ
one_if b = if b then 1 else 0

module _ {A : Type 0} (key : A → ℕ) where
  abbrev pub by_key : ℕ → A → Bool
  by_key k x = key x == k

  -- No two rows share their key.
  abbrev pub Distinct : List A → Type 0
  Distinct [] = Unit
  Distinct (x ∷ xs) = (count (by_key (key x)) xs ≡ 0) × Distinct xs

  pub first_passes : (p : A → Bool) (xs : List A) (t : A) → first p xs ≡ some t → p t ≡ true
  first_passes p [] t h = ground arith
  first_passes p (x ∷ xs) t h = ground (arith, first_passes p xs t)

  pub count-pos_of_first :
      (p : A → Bool) (xs : List A) (t : A) → first p xs ≡ some t → 1 ≤ count (by_key (key t)) xs
  count-pos_of_first p [] t h = ground arith
  count-pos_of_first p (x ∷ xs) t h = ground (arith, count-pos_of_first p xs t)

  pub update_where-absent :
      (k : ℕ) (f : A → A) (xs : List A)
      → count (by_key k) xs ≡ 0
      → update_where (by_key k) f xs ≡ xs
  update_where-absent k f [] h = refl
  update_where-absent k f (x ∷ xs) h = ground (arith, update_where-absent k f xs)

  pub keep-absent :
      (k : ℕ) (xs : List A) → count (by_key k) xs ≡ 0 → keep (λ r. not (by_key k r)) xs ≡ xs
  keep-absent k [] h = refl
  keep-absent k (x ∷ xs) h = ground (arith, keep-absent k xs)

  module _ (q : A → Bool) where
    count-update_where_head :
        (f : A → A) (x : A) (xs : List A)
        → count (by_key (key x)) xs ≡ 0
        → count q (update_where (by_key (key x)) f (x ∷ xs)) + one_if (q x)
          ≡ count q (x ∷ xs) + one_if (q (f x))
    count-update_where_head f x xs h =
        rw ((==_iff (key x) (key x)).1 refl, update_where-absent (key x) f xs h) (ground arith)

    count-delete_head :
        (x : A) (xs : List A)
        → count (by_key (key x)) xs ≡ 0
        → count q (keep (λ r. not (by_key (key x) r)) (x ∷ xs)) + one_if (q x) ≡ count q (x ∷ xs)
    count-delete_head x xs h =
        rw ((==_iff (key x) (key x)).1 refl, keep-absent (key x) xs h) (ground arith)

  module _ (q : A → Bool) (p : A → Bool) where
    pub count-update_where :
        (f : A → A) (xs : List A) (t : A)
        → Distinct xs
        → first p xs ≡ some t
        → count q (update_where (by_key (key t)) f xs) + one_if (q t)
          ≡ count q xs + one_if (q (f t))
    count-update_where f [] t d h = ground arith
    count-update_where f (x ∷ xs) t d h = elim (Bool-cases (p x)) [
      | inl found ↦
          subst
            (λ u.
              count q (update_where (by_key (key u)) f (x ∷ xs)) + one_if (q u)
              ≡ count q (x ∷ xs) + one_if (q (f u)))
            (ground arith) (count-update_where_head q f x xs d.0)
      | inr other ↦ ground (arith, count-pos_of_first p xs t, count-update_where f xs t d.1)
    ]

    pub count-delete :
        (xs : List A) (t : A)
        → Distinct xs
        → first p xs ≡ some t
        → count q (keep (λ r. not (by_key (key t) r)) xs) + one_if (q t) ≡ count q xs
    count-delete [] t d h = ground arith
    count-delete (x ∷ xs) t d h = elim (Bool-cases (p x)) [
      | inl found ↦
          subst
            (λ u.
              count q (keep (λ r. not (by_key (key u) r)) (x ∷ xs)) + one_if (q u)
              ≡ count q (x ∷ xs))
            (ground arith) (count-delete_head q x xs d.0)
      | inr other ↦ ground (arith, count-pos_of_first p xs t, count-delete xs t d.1)
    ]

  -- Two different rows that pass `q` are two.
  pub count-two :
      (q p p' : A → Bool) (xs : List A) (t u : A)
      → first p xs ≡ some t
      → first p' xs ≡ some u
      → q t ≡ true
      → q u ≡ true
      → t ≢ u
      → 2 ≤ count q xs
  count-two q p p' [] t u ht hu qt qu ne = ground arith
  count-two q p p' (x ∷ xs) t u ht hu qt qu ne =
      ground (arith, count-one q p xs t, count-one q p' xs u, count-two q p p' xs t u)
    where
      count-one :
          (q p : A → Bool) (ys : List A) (v : A) → first p ys ≡ some v → q v ≡ true → 1 ≤ count q ys
      count-one q p [] v h k = ground arith
      count-one q p (y ∷ ys) v h k = ground (arith, count-one q p ys v)

  module _ (q : A → Bool) where
    keep-update_head :
        (f : A → A) (x : A) (xs : List A)
        → count (by_key (key x)) xs ≡ 0
        → q x ≡ false
        → q (f x) ≡ false
        → keep q (update_where (by_key (key x)) f (x ∷ xs)) ≡ keep q (x ∷ xs)
    keep-update_head f x xs h a b =
        rw ((==_iff (key x) (key x)).1 refl, update_where-absent (key x) f xs h) (ground arith)

    pub keep-update_where :
        (p : A → Bool) (f : A → A) (xs : List A) (t : A)
        → Distinct xs
        → first p xs ≡ some t
        → q t ≡ false
        → q (f t) ≡ false
        → keep q (update_where (by_key (key t)) f xs) ≡ keep q xs
    keep-update_where p f [] t d h a b = refl
    keep-update_where p f (x ∷ xs) t d h a b = elim (Bool-cases (p x)) [
      | inl found ↦
          let e : x ≡ t = ground arith in
          subst (λ u. keep q (update_where (by_key (key u)) f (x ∷ xs)) ≡ keep q (x ∷ xs)) e
            (keep-update_head f x xs d.0 (ground arith) (ground arith))
      | inr other ↦ ground (arith, count-pos_of_first p xs t, keep-update_where p f xs t d.1)
    ]

    -- Deleting a row that fails the test, by its identifier.
    keep-delete_head :
        (x : A) (xs : List A)
        → count (by_key (key x)) xs ≡ 0
        → q x ≡ false
        → keep q (keep (λ r. not (by_key (key x) r)) (x ∷ xs)) ≡ keep q (x ∷ xs)
    keep-delete_head x xs h a =
        rw ((==_iff (key x) (key x)).1 refl, keep-absent (key x) xs h) (ground arith)

    pub keep-delete :
        (p : A → Bool) (xs : List A) (t : A)
        → Distinct xs
        → first p xs ≡ some t
        → q t ≡ false
        → keep q (keep (λ r. not (by_key (key t) r)) xs) ≡ keep q xs
    keep-delete p [] t d h a = refl
    keep-delete p (x ∷ xs) t d h a = elim (Bool-cases (p x)) [
      | inl found ↦
          let e : x ≡ t = ground arith in
          subst (λ u. keep q (keep (λ r. not (by_key (key u) r)) (x ∷ xs)) ≡ keep q (x ∷ xs)) e
            (keep-delete_head x xs d.0 (ground arith))
      | inr other ↦ ground (arith, count-pos_of_first p xs t, keep-delete p xs t d.1)
    ]

  count-update_key :
      (j k : ℕ) (f : A → A) (xs : List A)
      → ((x : A) → key (f x) ≡ key x)
      → count (by_key j) (update_where (by_key k) f xs) ≡ count (by_key j) xs
  count-update_key j k f [] same = refl
  count-update_key j k f (x ∷ xs) same = ground (arith, same x, count-update_key j k f xs same)

  pub Distinct-update_where :
      (k : ℕ) (f : A → A) (xs : List A)
      → ((x : A) → key (f x) ≡ key x)
      → Distinct xs
      → Distinct (update_where (by_key k) f xs)
  Distinct-update_where k f [] same d = tt
  Distinct-update_where k f (x ∷ xs) same d =
      ground
        (arith, same x, count-update_key (key x) k f xs same, Distinct-update_where k f xs same d.1)

  count-keep-le : (p q : A → Bool) (xs : List A) → count p (keep q xs) ≤ count p xs
  count-keep-le p q [] = omega arith
  count-keep-le p q (x ∷ xs) = ground (arith, count-keep-le p q xs)

  pub Distinct-keep : (q : A → Bool) (xs : List A) → Distinct xs → Distinct (keep q xs)
  Distinct-keep q [] d = tt
  Distinct-keep q (x ∷ xs) d =
      ground (arith, count-keep-le (by_key (key x)) q xs, Distinct-keep q xs d.1)

  pub Distinct-snoc :
      (m : A) (xs : List A) → count (by_key (key m)) xs ≡ 0 → Distinct xs → Distinct (xs ++ m ∷ [])
  Distinct-snoc m [] h d = (refl, tt)
  Distinct-snoc m (x ∷ xs) h d =
      ground (arith, count-append (by_key (key x)) xs (m ∷ []), Distinct-snoc m xs)

  pub first-keep :
      (p : A → Bool) (k : ℕ) (xs : List A) (m : A)
      → first p xs ≡ some m
      → key m ≢ k
      → first p (keep (λ r. not (by_key k r)) xs) ≡ some m
  first-keep p k [] m h ne = ground arith
  first-keep p k (x ∷ xs) m h ne = ground (arith, first-keep p k xs m)

-- What a search finds after an update that the search does not see.
pub first-update_where :
    {A : Type 0} (p q : A → Bool) (f : A → A) (xs : List A)
    → ((x : A) → p (f x) ≡ p x)
    → first p (update_where q f xs)
      ≡ (elim (first p xs) [ none ↦ none | some x ↦ some (if q x then f x else x) ])
first-update_where p q f [] same = refl
first-update_where p q f (x ∷ xs) same = ground (arith, same x, first-update_where p q f xs same)

pub first-snoc :
    {A : Type 0} (p : A → Bool) (xs : List A) (m : A)
    → first p xs ≡ none
    → p m ≡ true
    → first p (xs ++ m ∷ []) ≡ some m
first-snoc p [] m h k = ground arith
first-snoc p (x ∷ xs) m h k = ground (arith, first-snoc p xs m)

-- An update that makes rows pass a test which none passed.
pub first-update_fresh :
    {A : Type 0} (p q : A → Bool) (f : A → A) (xs : List A)
    → first p xs ≡ none
    → ((x : A) → p (f x) ≡ true)
    → first p (update_where q f xs) ≡ (elim (first q xs) [ none ↦ none | some x ↦ some (f x) ])
first-update_fresh p q f [] h to = refl
first-update_fresh p q f (x ∷ xs) h to = ground (arith, to x, first-update_fresh p q f xs, to)

count-zero_first :
    {A : Type 0} (p q : A → Bool) (f : A → A) (xs : List A)
    → count p xs ≡ 0
    → ((x : A) → p (f x) ≡ false)
    → first p (update_where q f xs) ≡ none
count-zero_first p q f [] h to = refl
count-zero_first p q f (x ∷ xs) h to = ground (arith, to x, count-zero_first p q f xs)

-- An update that makes the only row that passed a test fail it.
pub first-update_gone :
    {A : Type 0} (p q : A → Bool) (f : A → A) (xs : List A) (t : A)
    → first p xs ≡ some t
    → count p xs ≡ 1
    → q t ≡ true
    → ((x : A) → p (f x) ≡ false)
    → first p (update_where q f xs) ≡ none
first-update_gone p q f [] t h one qt to = refl
first-update_gone p q f (x ∷ xs) t h one qt to =
    ground (arith, to x, count-zero_first p q f xs, first-update_gone p q f xs t)

-- The row with a key is found by any test that finds a row with that key.
pub first-key :
    {A : Type 0} (key : A → ℕ) (p : A → Bool) (xs : List A) (t : A)
    → Distinct key xs
    → first p xs ≡ some t
    → first (by_key key (key t)) xs ≡ some t
first-key key p [] t d h = h
first-key key p (x ∷ xs) t d h =
    ground (arith, count-pos_of_first key p xs t, first-key key p xs t d.1)
