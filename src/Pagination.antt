-- ===== src/Pagination.antt =====
-- utils/pagination.js. A value of JavaScript is a number, one of the values that arithmetic yields
-- outside the numbers of the model, undefined, or an object; `parseInt` and the encoding of a cursor
-- (of the platform) are parameters.
pub mod Walk
mod Tests
use native.Mathlib.Nat.{div-mul-le_self, lt-div-mul-add, mul-le-mul_right}
use doc_query.Base.{
  Bool-cases, ltb→lt, inl, inr, ◌∙◌, ℕ, ◌≡◌, refl, ◌≤◌, ◌<◌, ◌+◌, ◌-◌, ◌*◌, ◌/◌, min, Bool, true,
  false, not, ltb, ◌==◌, zero, suc, Option, none, some, List, [], ◌∷◌, ◌++◌, length, take,
  length-take, arith, if◌then◌else◌,
}

pub data Value : Type 0 where
  num : ℕ → Value
  negative : ℕ → Value
  infinity nan undefined object : Value

-- `a < b`
abbrev pub less_than : Value → Value → Bool
less_than (num a) (num b) = ltb a b
less_than (negative a) (num b) = true
less_than (negative a) (negative b) = ltb b a
less_than (num a) infinity = true
less_than (negative a) infinity = true
less_than _ _ = false

-- `Math.ceil(a / b)` on numbers of a list's size.
abbrev pub ceil_div : Value → Value → Value
ceil_div (num a) (num b) =
    if b == 0 then (if a == 0 then nan else infinity) else num ((a + (b - 1)) / b)
ceil_div _ _ = nan

pub record Query : Type 0 where
  pub limit : List ℕ
  pub page : List ℕ
  pub cursor : List ℕ

abbrev is_empty : List ℕ → Bool
is_empty [] = true
is_empty (c ∷ s) = false

pub record Params : Type 0 where
  pub limit : ℕ
  pub page : Value
  pub cursor : Option (List ℕ)

abbrev pub default_limit : ℕ
default_limit = 20

abbrev pub max_limit : ℕ
max_limit = 100

pub clamp_limit : Value → ℕ
clamp_limit (num n) = if n == 0 then default_limit else if ltb max_limit n then max_limit else n
clamp_limit infinity = max_limit
clamp_limit _ = default_limit

pub clamp_page : Value → Value
clamp_page (num n) = if n == 0 then num 1 else num n
clamp_page infinity = infinity
clamp_page _ = num 1

unfoldable pub parse_pagination_params : (List ℕ → Value) → Query → Params
unfolding clamp_limit clamp_page
parse_pagination_params parse_int q = record {
  limit = clamp_limit (parse_int q.limit);
  page = if is_empty q.cursor then clamp_page (parse_int q.page) else undefined;
  cursor = if is_empty q.cursor then none else some q.cursor;
}

pub record OffsetPagination : Type 0 where
  pub total : Value
  pub page : Value
  pub limit : Value
  pub total_pages : Value
  pub has_next_page : Bool
  pub has_prev_page : Bool

unfoldable pub build_offset_pagination : Value → Value → Value → OffsetPagination
build_offset_pagination total page limit = record {
  total = total;
  page = page;
  limit = limit;
  total_pages = ceil_div total limit;
  has_next_page = less_than page (ceil_div total limit);
  has_prev_page = less_than (num 1) page;
}

pub record CursorPage (A C : Type 0) : Type 0 where
  pub data_ : List A
  pub has_next_page : Bool
  pub next_cursor : Option C

take-page :
    {A : Type 0} (n : ℕ) (xs : List A)
    → (if ltb n (length (take (suc n) xs)) then take n (take (suc n) xs) else take (suc n) xs)
      ≡ take n xs
take-page zero [] = refl
take-page zero (x ∷ xs) = refl
take-page (suc n) [] = ground arith
take-page (suc n) (x ∷ xs) = ground (arith, take-page n xs)

module _ {A C : Type 0} (encode : A → C) where
  pub last_cursor : List A → Option C
  last_cursor [] = none
  last_cursor (x ∷ []) = some (encode x)
  last_cursor (x ∷ y ∷ xs) = last_cursor (y ∷ xs)

  -- `buildCursorPagination`; `encode` stands for `encodeCursor` on the cursor's field.
  unfoldable pub build_cursor_pagination : List A → ℕ → CursorPage A C
  unfolding last_cursor
  build_cursor_pagination items limit =
      let more = ltb limit (length items) in
      let rows = if more then take limit items else items in
      record {
        data_ = rows;
        has_next_page = more;
        next_cursor = if more then last_cursor rows else none;
      }

  -- Where one row more than the limit is asked for, the page is the rows up to the limit, and the
  -- answer to whether there are more is right for the whole list.
  pub build_cursor_pagination-page :
      (limit : ℕ) (rows : List A)
      → ((build_cursor_pagination (take (suc limit) rows) limit).data_ ≡ take limit rows)
        × ((build_cursor_pagination (take (suc limit) rows) limit).has_next_page
            ≡ ltb limit (length rows))
  unfolding build_cursor_pagination
  build_cursor_pagination-page limit rows =
      (take-page limit rows, ground (arith, length-take (suc limit) rows))

clamp_limit-bounds : (v : Value) → (1 ≤ clamp_limit v) × (clamp_limit v ≤ 100)
unfolding clamp_limit
clamp_limit-bounds (num n) = ground arith
clamp_limit-bounds (negative n) = omega arith
clamp_limit-bounds infinity = omega arith
clamp_limit-bounds nan = omega arith
clamp_limit-bounds undefined = omega arith
clamp_limit-bounds object = omega arith

-- A limit is always from 1 to 100, whatever the request says.
pub parse_pagination_params-limit :
    (parse_int : List ℕ → Value) (q : Query)
    → (1 ≤ (parse_pagination_params parse_int q).limit)
      × ((parse_pagination_params parse_int q).limit ≤ 100)
unfolding parse_pagination_params
parse_pagination_params-limit parse_int q = clamp_limit-bounds (parse_int q.limit)

before_last :
    (total page limit k : ℕ)
    → total ≤ k * limit
    → k * limit < total + limit
    → ltb page k ≡ ltb (page * limit) total
before_last total page limit k enough least = elim (Bool-cases (ltb page k)) [
  | inl early ↦
      let step : suc page * limit ≤ k * limit = mul-le-mul_right limit (ltb→lt page k early) in
      early ∙ ground arith
  | inr late ↦
      let step : k * limit ≤ page * limit = mul-le-mul_right limit (ground arith) in
      late ∙ ground arith
]

-- With a limit of at least 1 the number of pages is the least that holds all records, there is a
-- next page exactly when records come after this one, and a previous page exactly from the second
-- page on.
pub build_offset_pagination-pages :
    (total page limit : ℕ)
    → 1 ≤ limit
    → (k : ℕ) × ((build_offset_pagination (num total) (num page) (num limit)).total_pages ≡ num k)
      × (total ≤ k * limit)
      × (k * limit < total + limit)
      × ((build_offset_pagination (num total) (num page) (num limit)).has_next_page
          ≡ ltb (page * limit) total)
      × ((build_offset_pagination (num total) (num page) (num limit)).has_prev_page ≡ ltb 1 page)
unfolding build_offset_pagination
build_offset_pagination-pages total page limit h =
    let k = (total + (limit - 1)) / limit in
    let lower : k * limit ≤ total + (limit - 1) = div-mul-le_self (total + (limit - 1)) limit in
    let upper : total + (limit - 1) < k * limit + limit =
      lt-div-mul-add {a = total + (limit - 1)} (omega arith) in
    (
      k,
      ground arith,
      omega arith,
      omega arith,
      ground (arith, before_last total page limit k),
      ground arith,
    )
