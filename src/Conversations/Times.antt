-- ===== src/Conversations/Times.antt =====
-- The messages of a conversation by their identifiers and their times of creation.
use doc_query.Base.{
  ℕ, ◌≡◌, refl, ◌≤◌, ◌<◌, ==_iff, All, true, List, [], ◌∷◌, ◌++◌, length, count, count-append,
  arith,
}
use doc_query.Base.Keyed.{Distinct, by_key}
use doc_query.Conversations.Rows.{Message, Ordered, Rising}

abbrev pub id_of : Message → ℕ
id_of m = m.id

abbrev pub created_of : Message → ℕ
created_of m = m.created_at

pub length-all : (rows : List Message) → count (λ m. true) rows ≡ length rows
length-all [] = refl
length-all (m ∷ rows) = ground (arith, length-all rows)

-- Messages by their times of creation, all different.
All-later :
    (m : Message) (ms : List Message)
    → All (λ (x : Message). m.created_at ≤ x.created_at) ms
    → count (by_key created_of m.created_at) ms ≡ 0
    → All (λ (x : Message). m.created_at < x.created_at) ms
All-later m [] h d = tt
All-later m (x ∷ ms) h d = (
  grind (arith, h.0, d, ==_iff x.created_at m.created_at),
  All-later m ms h.1 (ground (arith, d)),
)

pub Rising-Ordered : (ms : List Message) → Ordered ms → Distinct created_of ms → Rising ms
Rising-Ordered [] h d = tt
Rising-Ordered (m ∷ ms) h d = (All-later m ms h.0 d.0, Rising-Ordered ms h.1 d.1)

pub count-before :
    (a : List Message) (m : Message) (b : List Message)
    → Distinct id_of (a ++ m ∷ b)
    → count (by_key id_of m.id) a ≡ 0
count-before [] m b h = refl
count-before (x ∷ a) m b h = ground (
  arith,
  count-before a m b h.1,
  h.0,
  count-append (by_key id_of x.id) a (m ∷ b),
  ==_iff x.id m.id,
  ==_iff m.id x.id,
)
