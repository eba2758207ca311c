-- ===== src/Conversations/Others.antt =====
-- The rows of other conversations, when rows are added, changed or deleted (modules/conversations).
use doc_query.Base.{
  ℕ, ◌≡◌, refl, ◌∙◌, subst, ◌==◌, ==_iff, Bool, false, not, Bool-cases, inl, inr, none, some, List,
  [], ◌∷◌, ◌++◌, keep, first, arith,
}
use doc_query.Base.Table.{update_where}
use doc_query.Base.Keyed.{first-update_where}
use doc_query.Conversations.Rows.{Conversation, Message, owned, in_conversation}

pub keep-snoc :
    (p : Message → Bool) (xs : List Message) (m : Message)
    → p m ≡ false
    → keep p (xs ++ m ∷ []) ≡ keep p xs
keep-snoc p [] m h = ground (arith, h)
keep-snoc p (x ∷ xs) m h = ground (arith, h, keep-snoc p xs m h)

pub keep-others :
    (id k : ℕ) (xs : List Message)
    → (id == k) ≡ false
    → keep (in_conversation k) (keep (λ m. not (in_conversation id m)) xs)
      ≡ keep (in_conversation k) xs
keep-others id k [] h = refl
keep-others id k (x ∷ xs) h = ground (
  arith,
  h,
  keep-others id k xs h,
  ==_iff x.conversation_id id,
  ==_iff x.conversation_id k,
  ==_iff id k,
)

pub first-snoc_none :
    (p : Conversation → Bool) (xs : List Conversation) (c : Conversation)
    → first p xs ≡ none
    → p c ≡ false
    → first p (xs ++ c ∷ []) ≡ none
first-snoc_none p [] c h k = ground (arith, k)
first-snoc_none p (x ∷ xs) c h k = ground (arith, first-snoc_none p xs c)

pub first-keep-none :
    (p q : Conversation → Bool) (xs : List Conversation)
    → first p xs ≡ none
    → first p (keep q xs) ≡ none
first-keep-none p q [] h = refl
first-keep-none p q (x ∷ xs) h = ground (arith, first-keep-none p q xs)

pub first-update_none :
    (p q : Conversation → Bool) (f : Conversation → Conversation) (xs : List Conversation)
    → ((c : Conversation) → p (f c) ≡ p c)
    → first p xs ≡ none
    → first p (update_where q f xs) ≡ none
first-update_none p q f xs same h = first-update_where p q f xs same ∙ rw h refl

pub other_id :
    (id k org user : ℕ) (xs : List Conversation) (c : Conversation)
    → first (owned id org user) xs ≡ some c
    → first (owned k org user) xs ≡ none
    → (id == k) ≡ false
other_id id k org user xs c found absent = elim (Bool-cases (id == k)) [
  | inl e ↦
      let same = subst (λ j. first (owned j org user) xs ≡ some c) ((==_iff id k).0 e) found in
      absurd (ground (arith, same, absent))
  | inr e ↦ e
]
