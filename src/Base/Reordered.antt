-- ===== src/Base/Reordered.antt =====
-- Rows in another order: which keys they share.
use doc_query.Base.Tests.{◌==◌, ==_iff, Bool-cases}
use doc_query.Base.Keyed.{by_key, Distinct}
use Prim.Native.Nat.{ℕ, ◌≤◌}
use mathlib.Core.Path.{◌≡◌, refl, subst}
use mathlib.Core.Logic.{inl, inr}
use mathlib.Core.Bool.{Bool}
use mathlib.Core.List.{List, [], ◌∷◌}
use native.Mathlib.Omega.{arith}
use doc_query.Base.Lists.{count}

-- They share one only if the rows did before.
module _ {A : Type 0} (key : A → ℕ) where
  count-Distinct : (k : ℕ) (xs : List A) → Distinct key xs → count (by_key key k) xs ≤ 1
  count-Distinct k [] d = omega arith
  count-Distinct k (x ∷ xs) d = elim (Bool-cases (key x == k)) [
    | inl same ↦
        let here : count (by_key key k) xs ≡ 0 =
          subst (λ n. count (by_key key n) xs ≡ 0) ((==_iff (key x) k).0 same) d.0 in
        ground (arith, same, here)
    | inr other ↦ ground (arith, other, count-Distinct k xs d.1)
  ]

  Distinct-count : (xs : List A) → ((k : ℕ) → count (by_key key k) xs ≤ 1) → Distinct key xs
  Distinct-count [] h = tt
  Distinct-count (x ∷ xs) h = (
    ground (arith, h (key x), (==_iff (key x) (key x)).1 refl),
    Distinct-count xs (λ k. ground (arith, h k)),
  )

  pub Distinct-reordered :
      (xs ys : List A)
      → ((p : A → Bool) → count p ys ≡ count p xs)
      → Distinct key xs
      → Distinct key ys
  Distinct-reordered xs ys same d =
      Distinct-count ys (λ k. omega (arith, same (by_key key k), count-Distinct k xs d))
