-- ===== src/Conversations/Rows.antt =====
-- `model Conversation`, `model Message` and `model MessageSource` of prisma/schema.prisma, the rows
-- that modules/conversations/conversation.repository.js reads and writes, and what it takes from the
-- database and the platform.
use doc_query.Base.{ℕ, ◌≡◌, Bool, ◌&&◌, ◌==◌, List, [], ◌∷◌, ◌++◌, count, All, ◌≤◌, ◌<◌}
use doc_query.Base.Keyed.{by_key}
use doc_query.Query.Rows.{Citation}

pub record Conversation : Type 0 where
  pub id : ℕ
  pub organization_id : ℕ
  pub user_id : ℕ
  pub title : List ℕ
  pub updated_at : ℕ

-- `role === 'USER'`, or the assistant.
pub record Message : Type 0 where
  pub id : ℕ
  pub conversation_id : ℕ
  pub from_user : Bool
  pub content : List ℕ
  pub created_at : ℕ

pub record Source : Type 0 where
  pub message_id : ℕ
  pub cited : Citation

-- The tables, and the state of the query service.
pub record State (X : Type 0) : Type 0 where
  pub conversations : List Conversation
  pub messages : List Message
  pub sources : List Source
  pub rag : X

-- `where: { id, organizationId, userId }`
abbrev pub owned : ℕ → ℕ → ℕ → Conversation → Bool
owned id org user c = c.id == id && c.organization_id == org && c.user_id == user

-- `where: { organizationId, userId }`
abbrev pub of_user : ℕ → ℕ → Conversation → Bool
of_user org user c = c.organization_id == org && c.user_id == user

-- `where: { conversationId }`
abbrev pub in_conversation : ℕ → Message → Bool
in_conversation id m = m.conversation_id == id

-- `where: { messageId }`
abbrev pub of_message : ℕ → Source → Bool
of_message id s = s.message_id == id

-- By the time of creation, where messages of one time stand in any order, or where there are none.
abbrev pub Ordered : List Message → Type 0
Ordered [] = Unit
Ordered (m ∷ ms) = All (λ (x : Message). m.created_at ≤ x.created_at) ms × Ordered ms

abbrev pub Rising : List Message → Type 0
Rising [] = Unit
Rising (m ∷ ms) = All (λ (x : Message). m.created_at < x.created_at) ms × Rising ms

-- The orders of the database (`orderBy`), and the reading from a cursor on, whose place is known where
-- no two rows are of one time.
pub record Orders : Type 0 where
  pub latest_first : List Conversation → List Conversation
  -- `createdAt: 'asc'`
  pub oldest_first : List Message → List Message
  -- `createdAt: 'desc'`
  pub newest_first : List Message → List Message
  pub after : ℕ → List Message → List Message
  pub oldest_first_lem :
      (rows : List Message) (p : Message → Bool) → count p (oldest_first rows) ≡ count p rows
  pub oldest_first-Ordered : (rows : List Message) → Ordered (oldest_first rows)
  -- `cursor: { id }` with `skip: 1`
  pub after_lem :
      (pre post : List Message) (m : Message)
      → Rising (pre ++ m ∷ post)
      → count (by_key (λ (x : Message). x.id) m.id) pre ≡ 0
      → after m.id (pre ++ m ∷ post) ≡ post
