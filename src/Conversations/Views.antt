-- ===== src/Conversations/Views.antt =====
-- What modules/conversations/conversation.service.js gives its callers, and its small tests and
-- defaults.
use doc_query.Base.{
  ℕ, Bool, true, false, ◌==◌, Option, none, some, List, [], ◌∷◌, ◌-◌, ◌*◌, if◌then◌else◌,
}
use doc_query.Base.Table.{Table}
use doc_query.Base.Errors.{Code, AppError}
use doc_query.Base.Attempt.{Attempt, got, threw, Failure, failure}
use doc_query.Text.{codes, trim}
use doc_query.Pagination.{Value, num, nan, undefined, OffsetPagination, CursorPage}
use doc_query.Query.Rows.{Citation}
use doc_query.Conversations.Rows.{Conversation, Message, Source, Orders}

abbrev pub missing : Failure
missing = failure (some (AppError.not_found Code.conversation_not_found)) []

-- What the database refuses: a number of rows to skip that is none.
abbrev pub bad_skip : Failure
bad_skip = failure none []

abbrev pub is_empty : List ℕ → Bool
is_empty [] = true
is_empty (c ∷ s) = false

-- `(title && title.trim()) || 'New Conversation'`
abbrev pub title_or_default : List ℕ → List ℕ
title_or_default title = if is_empty (trim title) then codes "New Conversation" else trim title

-- `(page - 1) * limit`
abbrev pub skip_to : Value → ℕ → Attempt ℕ
skip_to (num p) limit = if p == 0 then threw bad_skip else got ((p - 1) * limit)
skip_to _ limit = threw bad_skip

-- `parseInt(query.page, 10) || 1`
abbrev pub or_one : Value → Value
or_one (num n) = if n == 0 then num 1 else num n
or_one nan = num 1
or_one undefined = num 1
or_one v = v

-- A conversation with `_count.messages`.
pub record Counted : Type 0 where
  pub conversation : Conversation
  pub message_count : ℕ

pub record ConversationList : Type 0 where
  pub conversations : List Counted
  pub pagination : OffsetPagination

-- A message with its sources.
pub record Sourced : Type 0 where
  pub message : Message
  pub sources : List Source

pub record OffsetPage : Type 0 where
  pub data_ : List Sourced
  pub pagination : OffsetPagination

pub data Listing (K : Type 0) : Type 0 where
  by_offset : OffsetPage → Listing K
  by_cursor : CursorPage Sourced K → Listing K

-- What `sendMessage` gives.
pub record Reply : Type 0 where
  pub title : List ℕ
  pub user_message : Message
  pub assistant_message : Sourced
  pub citations : List Citation

abbrev pub decoded : {K : Type 0} → (K → Attempt (Option ℕ)) → Option K → Attempt (Option ℕ)
decoded decode none = got none
decoded decode (some k) = decode k

abbrev pub has_page : List ℕ → Bool
has_page [] = false
has_page (c ∷ s) = true

-- `listMessages` of the repository, from a cursor on.
abbrev pub from_cursor : Orders → Option ℕ → List Message → List Message
from_cursor orders none rows = rows
from_cursor orders (some id) rows = orders.after id rows

abbrev pub add_sources : Table Source → ℕ → List Citation → List Source → List Source
add_sources sources id [] rows = rows
add_sources sources id (c ∷ cs) rows =
    add_sources sources id cs (sources.create (record { message_id = id; cited = c }) rows)
