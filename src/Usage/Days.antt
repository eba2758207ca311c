-- ===== src/Usage/Days.antt =====
-- How one recorded usage changes the rows of the days (services/usage-metering.service.js).
use doc_query.Base.{
  ℕ, ◌≡◌, ◌≤◌, refl, sym, ◌∙◌, subst, ◌==◌, ==_iff, ◌+◌, ◌&&◌, Bool, true, Bool-cases, Option-cases,
  none, some, inl, inr, List, [], ◌∷◌, ◌++◌, keep, count, first, arith, if◌then◌else◌, count-append,
}
use doc_query.Base.Table.{Table, update_where, upsert-absent, upsert-found}
use doc_query.Text.{text_eq_iff, starts_with}
use doc_query.Usage.{
  Usage, Aggregate, EventType, Metadata, query, api_request, embedding, llm_tokens, storage,
  document_upload, created, incremented, increments, today, of_day, in_month,
  update_daily_aggregate,
}

-- A quantity of the rows, summed.
abbrev pub sum_of : {A : Type 0} → (A → ℕ) → List A → ℕ
sum_of f [] = 0
sum_of f (x ∷ xs) = f x + sum_of f xs

sum_of-keep_append :
    {A : Type 0} (f : A → ℕ) (p : A → Bool) (xs : List A) (x : A)
    → sum_of f (keep p (xs ++ x ∷ [])) ≡ sum_of f (keep p xs) + (if p x then f x else 0)
sum_of-keep_append f p [] x = ground arith
sum_of-keep_append f p (y ∷ xs) x = ground (arith, sum_of-keep_append f p xs x)

update_where-none :
    {A : Type 0} (q : A → Bool) (g : A → A) (xs : List A)
    → count q xs ≡ 0
    → update_where q g xs ≡ xs
update_where-none q g [] h = refl
update_where-none q g (x ∷ xs) h = ground (arith, update_where-none q g xs)

-- Updating the one row that passes a test adds what the update adds to that row, if it is summed.
sum_of-update_where :
    {A : Type 0} (f : A → ℕ) (p q : A → Bool) (g : A → A) (n : ℕ) (b : Bool) (xs : List A) (t : A)
    → ((x : A) → p (g x) ≡ p x)
    → ((x : A) → f (g x) ≡ f x + n)
    → ((x : A) → q x ≡ true → p x ≡ b)
    → count q xs ≤ 1
    → first q xs ≡ some t
    → sum_of f (keep p (update_where q g xs)) ≡ sum_of f (keep p xs) + (if b then n else 0)
sum_of-update_where f p q g n b [] t stays adds all one found = ground arith
sum_of-update_where f p q g n b (x ∷ xs) t stays adds all one found = elim (Bool-cases (q x)) [
  | inl here ↦
      let rest = update_where-none q g xs (ground arith) in
      ground (arith, rest, stays x, adds x, all x here)
  | inr other ↦
      let rest =
        sum_of-update_where f p q g n b xs t stays adds all (ground arith) (ground arith) in
      ground (arith, rest, stays x, adds x)
]

-- A day has one row for an organization.
abbrev pub OnePerDay : List Aggregate → Type 0
OnePerDay rows = (org : ℕ) (date : List ℕ) → count (of_day org date) rows ≤ 1

same_day :
    (u : Usage) (a : Aggregate)
    → of_day u.organization_id (today u.now) a ≡ true
    → (a.organization_id ≡ u.organization_id) × (a.date ≡ today u.now)
same_day u a h = (
  ground (arith, ==_iff a.organization_id u.organization_id),
  (text_eq_iff a.date (today u.now)).0 (ground arith),
)

increments_stay :
    (e : EventType) (n : ℕ) (m : Metadata) (a : Aggregate)
    → ((increments e n m a).organization_id ≡ a.organization_id)
      × ((increments e n m a).date ≡ a.date)
increments_stay query n m a = (refl, refl)
increments_stay api_request n m a = (refl, refl)
increments_stay embedding n m a = (refl, refl)
increments_stay llm_tokens n m a = (refl, refl)
increments_stay storage n m a = (refl, refl)
increments_stay document_upload n m a = (refl, refl)

-- What one usage counts for, in the month of an organization.
abbrev pub counted : ℕ → List ℕ → (Usage → ℕ) → Usage → ℕ
counted org month amount u =
    if (u.organization_id == org && starts_with month (today u.now)) then amount u else 0

-- A column that an event changes by the same amount, whether it creates the row or updates it.
abbrev pub Meters : (Aggregate → ℕ) → (Usage → ℕ) → Usage → Type 0
Meters f amount u =
    (f (created u) ≡ amount u) × ((a : Aggregate) → f (incremented u a) ≡ f a + amount u)

count-update_where_stays :
    {A : Type 0} (p q : A → Bool) (g : A → A) (xs : List A)
    → ((x : A) → p (g x) ≡ p x)
    → count p (update_where q g xs) ≡ count p xs
count-update_where_stays p q g [] stays = refl
count-update_where_stays p q g (x ∷ xs) stays =
    ground (arith, stays x, count-update_where_stays p q g xs stays)

count-zero_of_first : {A : Type 0} (p : A → Bool) (xs : List A) → first p xs ≡ none → count p xs ≡ 0
count-zero_of_first p [] h = refl
count-zero_of_first p (x ∷ xs) h = ground (arith, count-zero_of_first p xs)

module _ (u : Usage) where
  of_day_stays :
      (org : ℕ) (date : List ℕ) (a : Aggregate)
      → of_day org date (incremented u a) ≡ of_day org date a
  of_day_stays org date a =
      let (o, d) = increments_stay u.event_type u.quantity u.metadata a in rw (o, d) refl

  in_month_stays :
      (org : ℕ) (month : List ℕ) (a : Aggregate)
      → in_month org month (incremented u a) ≡ in_month org month a
  in_month_stays org month a =
      let (o, d) = increments_stay u.event_type u.quantity u.metadata a in rw (o, d) refl

  in_month_day :
      (org : ℕ) (month : List ℕ) (a : Aggregate)
      → of_day u.organization_id (today u.now) a ≡ true
      → in_month org month a ≡ (u.organization_id == org && starts_with month (today u.now))
  in_month_day org month a h = let (o, d) = same_day u a h in rw (o, d) refl

  module _ (table : Table Aggregate) (rows : List Aggregate) where
    daily_new :
        first (of_day u.organization_id (today u.now)) rows ≡ none
        → update_daily_aggregate table u rows ≡ rows ++ created u ∷ []
    unfolding update_daily_aggregate
    daily_new absent = upsert-absent table _ (created u) (incremented u) rows absent

    daily_old :
        (a : Aggregate)
        → first (of_day u.organization_id (today u.now)) rows ≡ some a
        → update_daily_aggregate table u rows
          ≡ update_where (of_day u.organization_id (today u.now)) (incremented u) rows
    unfolding update_daily_aggregate
    daily_old a found = upsert-found table _ (created u) (incremented u) rows a found

    new_day :
        first (of_day u.organization_id (today u.now)) rows ≡ none
        → OnePerDay rows
        → OnePerDay (rows ++ created u ∷ [])
    new_day absent one org date = elim (Bool-cases (of_day org date (created u))) [
      | inl same ↦
          let o : u.organization_id ≡ org = ground (arith, ==_iff u.organization_id org) in
          let d : today u.now ≡ date = (text_eq_iff (today u.now) date).0 (ground arith) in
          let z = count-zero_of_first (of_day u.organization_id (today u.now)) rows absent in
          let z' : count (of_day org date) rows ≡ 0 =
            subst (λ o. count (of_day o date) rows ≡ 0) o
              (subst (λ d. count (of_day u.organization_id d) rows ≡ 0) d z) in
          ground (arith, count-append (of_day org date) rows (created u ∷ []), z')
      | inr other ↦
          ground (arith, count-append (of_day org date) rows (created u ∷ []), one org date, other)
    ]

    pub update_daily-OnePerDay : OnePerDay rows → OnePerDay (update_daily_aggregate table u rows)
    update_daily-OnePerDay one =
        elim (Option-cases (first (of_day u.organization_id (today u.now)) rows)) [
          | inl absent ↦ subst OnePerDay (sym (daily_new absent)) (new_day absent one)
          | inr (a, found) ↦ λ org date.
              rw
                (
                  daily_old a found,
                  count-update_where_stays (of_day org date) _ (incremented u) rows
                      (of_day_stays org date),
                )
                (one org date)
        ]

    pub update_daily-Meters :
        (f : Aggregate → ℕ) (amount : Usage → ℕ) (org : ℕ) (month : List ℕ)
        → Meters f amount u
        → OnePerDay rows
        → sum_of f (keep (in_month org month) (update_daily_aggregate table u rows))
          ≡ sum_of f (keep (in_month org month) rows) + counted org month amount u
    update_daily-Meters f amount org month (new, old) one =
        let q = of_day u.organization_id (today u.now) in
        elim (Option-cases (first q rows)) [
          | inl absent ↦
              let e = sum_of-keep_append f (in_month org month) rows (created u) in
              rw (daily_new absent) (e ∙ rw new refl)
          | inr (a, found) ↦ rw (daily_old a found) (
              sum_of-update_where f (in_month org month) q (incremented u) (amount u) _ rows a
                (in_month_stays org month) old (in_month_day org month)
                (one u.organization_id (today u.now)) found)
        ]
