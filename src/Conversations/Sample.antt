-- ===== src/Conversations/Sample.antt =====
-- The orders of a database in memory, and texts of one unit.
use doc_query.Base.{
  ℕ, ◌≡◌, refl, ◌≤◌, ltb, ltb→lt, Bool, Bool-cases, inl, inr, ==_iff, ◌==◌, none, some, List, [],
  ◌∷◌, ◌++◌, count, All, arith, if◌then◌else◌,
}
use mathlib.Core.List.{reverse}
use doc_query.Base.Keyed.{by_key}
use doc_query.Conversations.Cursor.{Encoding}
use doc_query.Conversations.Rows.{Message, Orders, Ordered}

abbrev insert_by_time : Message → List Message → List Message
insert_by_time m [] = m ∷ []
insert_by_time m (x ∷ ms) =
    let later = x ∷ insert_by_time m ms in
    if ltb x.created_at m.created_at then later else m ∷ x ∷ ms

abbrev by_time : List Message → List Message
by_time [] = []
by_time (m ∷ ms) = insert_by_time m (by_time ms)

count-insert :
    (p : Message → Bool) (m : Message) (ms : List Message)
    → count p (insert_by_time m ms) ≡ count p (m ∷ ms)
count-insert p m [] = refl
count-insert p m (x ∷ ms) = elim (Bool-cases (ltb x.created_at m.created_at)) [
  | inl e ↦ rw e (ground (arith, count-insert p m ms))
  | inr e ↦ rw e refl
]

pub count-by_time : (ms : List Message) (p : Message → Bool) → count p (by_time ms) ≡ count p ms
count-by_time [] p = refl
count-by_time (m ∷ ms) p = ground (arith, count-insert p m (by_time ms), count-by_time ms p)

abbrev After : ℕ → List Message → Type 0
After t = All (λ (x : Message). t ≤ x.created_at)

After-insert :
    (t : ℕ) (m : Message) (ms : List Message)
    → t ≤ m.created_at
    → After t ms
    → After t (insert_by_time m ms)
After-insert t m [] h k = (h, tt)
After-insert t m (x ∷ ms) h k = elim (Bool-cases (ltb x.created_at m.created_at)) [
  | inl e ↦ rw e (k.0, After-insert t m ms h k.1)
  | inr e ↦ rw e (h, k)
]

After-earlier : (t u : ℕ) (ms : List Message) → t ≤ u → After u ms → After t ms
After-earlier t u [] h k = tt
After-earlier t u (x ∷ ms) h k = (omega (arith, h, k.0), After-earlier t u ms h k.1)

insert-Ordered : (m : Message) (ms : List Message) → Ordered ms → Ordered (insert_by_time m ms)
insert-Ordered m [] h = (tt, tt)
insert-Ordered m (x ∷ ms) h = elim (Bool-cases (ltb x.created_at m.created_at)) [
  | inl e ↦
      let earlier = ltb→lt x.created_at m.created_at e in
      rw e (After-insert x.created_at m ms (omega (arith, earlier)) h.0, insert-Ordered m ms h.1)
  | inr e ↦
      let early : m.created_at ≤ x.created_at = ground (arith, e) in
      rw e ((early, After-earlier m.created_at x.created_at ms early h.0), h)
]

pub by_time-Ordered : (ms : List Message) → Ordered (by_time ms)
by_time-Ordered [] = tt
by_time-Ordered (m ∷ ms) = insert-Ordered m (by_time ms) (by_time-Ordered ms)

-- The rows after the first one with an identifier.
abbrev rows_after : ℕ → List Message → List Message
rows_after i [] = []
rows_after i (m ∷ ms) = let later = rows_after i ms in if m.id == i then ms else later

pub rows_after-found :
    (pre post : List Message) (m : Message)
    → count (by_key (λ (x : Message). x.id) m.id) pre ≡ 0
    → rows_after m.id (pre ++ m ∷ post) ≡ post
rows_after-found [] post m h = ground (arith, (==_iff m.id m.id).1 refl)
rows_after-found (x ∷ pre) post m h = ground (arith, rows_after-found pre post m)

abbrev pub orders : Orders
orders = record {
  latest_first = λ rows. rows;
  oldest_first = by_time;
  newest_first = λ rows. reverse (by_time rows);
  after = rows_after;
  oldest_first_lem = count-by_time;
  oldest_first-Ordered = by_time-Ordered;
  after_lem = λ pre post m rising fresh. rows_after-found pre post m fresh;
}

abbrev pub encoding : Encoding
encoding = record {
  uuid_text = λ n. n ∷ [];
  read_uuid = λ s. elim s [ [] ↦ none | c ∷ t ↦ some c ];
  to_base64url = λ s. s;
  from_base64url = λ s. s;
  read_uuid-text = λ n. refl;
  from-to_base64url = λ n. refl;
  uuid_text-visible = λ n. (n, [], refl);
  base64url-visible = λ c s. (c, s, refl);
}
