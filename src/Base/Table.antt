-- ===== src/Base/Table.antt =====
-- A database table as the services see it through the Prisma client (a package, not under this
-- repository). The operations are a parameter; the laws are the documented meaning of each call
-- on the rows of the table, in the order in which they are stored.
use Prim.Native.Nat.{ℕ}
use mathlib.Core.Path.{◌≡◌, refl, ap, ◌∙◌}
use mathlib.Core.Bool.{Bool, not}
use mathlib.Core.Option.{Option, none, some}
use mathlib.Core.List.{List, [], ◌∷◌, ◌++◌}
use doc_query.Base.Tests.{if◌then◌else◌}
use doc_query.Base.Lists.{first, keep, count}

-- `update` on the rows that pass the test.
abbrev pub update_where {ℓ} : {A : Type ℓ} → (A → Bool) → (A → A) → List A → List A
update_where p f [] = []
update_where p f (x ∷ xs) = (if p x then f x else x) ∷ update_where p f xs

pub record Table (Row : Type 0) : Type 0 where
  -- `findUnique`, `findFirst`
  pub find : (Row → Bool) → List Row → Option Row
  -- `findMany` with a `where` and no order
  pub find_many : (Row → Bool) → List Row → List Row
  pub count_where : (Row → Bool) → List Row → ℕ
  pub create : Row → List Row → List Row
  pub update : (Row → Bool) → (Row → Row) → List Row → List Row
  pub delete : (Row → Bool) → List Row → List Row
  pub find_lem : (p : Row → Bool) (rows : List Row) → find p rows ≡ first p rows
  pub find_many_lem : (p : Row → Bool) (rows : List Row) → find_many p rows ≡ keep p rows
  pub count_lem : (p : Row → Bool) (rows : List Row) → count_where p rows ≡ count p rows
  pub create_lem : (r : Row) (rows : List Row) → create r rows ≡ rows ++ (r ∷ [])
  pub update_lem :
      (p : Row → Bool) (f : Row → Row) (rows : List Row) → update p f rows ≡ update_where p f rows
  pub delete_lem : (p : Row → Bool) (rows : List Row) → delete p rows ≡ keep (λ r. not (p r)) rows

-- The rows in memory: a table for which the laws hold.
abbrev pub in_memory : {Row : Type 0} → Table Row
in_memory = record {
  find = first;
  find_many = keep;
  count_where = count;
  create = λ r rows. rows ++ (r ∷ []);
  update = update_where;
  delete = λ p rows. keep (λ r. not (p r)) rows;
  find_lem = λ p rows. refl;
  find_many_lem = λ p rows. refl;
  count_lem = λ p rows. refl;
  create_lem = λ r rows. refl;
  update_lem = λ p f rows. refl;
  delete_lem = λ p rows. refl;
}

module _ {Row : Type 0} (table : Table Row) (test : Row → Bool) (new : Row)
    (change : Row → Row) where
  abbrev pub write_found : List Row → Option Row → List Row
  write_found rows none = table.create new rows
  write_found rows (some row) = table.update test change rows

  -- `upsert`: the row is updated if it is there, and created if not.
  abbrev pub upsert : List Row → List Row
  upsert rows = write_found rows (table.find test rows)

  pub upsert-absent : (rows : List Row) → first test rows ≡ none → upsert rows ≡ rows ++ new ∷ []
  upsert-absent rows h =
      ap (write_found rows) (table.find_lem test rows ∙ h) ∙ table.create_lem new rows

  pub upsert-found :
      (rows : List Row) (row : Row)
      → first test rows ≡ some row
      → upsert rows ≡ update_where test change rows
  upsert-found rows row h =
      ap (write_found rows) (table.find_lem test rows ∙ h) ∙ table.update_lem test change rows
