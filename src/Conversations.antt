-- ===== src/Conversations.antt =====
-- modules/conversations/conversation.service.js over conversation.repository.js: conversations of a
-- user in an organization, their messages in pages, and a message that asks the query service. The
-- query service and its state, the encoding of cursors and `parseInt` are parameters; identifiers of
-- new rows and times are arguments.
pub mod Rows
pub mod Sending
pub mod Views
pub mod Cursor
pub mod Sample
pub mod Times
pub mod Paging
pub mod Others
pub mod Owned
pub mod Unrestricted
mod Tests
use doc_query.Base.{
  ℕ, suc, zero, Bool, true, false, ◌&&◌, ◌==◌, ltb, Option, none, some, List, [], ◌∷◌, ◌++◌, ◌-◌,
  ◌*◌, map, keep, take, drop, length, any, if◌then◌else◌,
}
use mathlib.Core.List.{reverse}
use doc_query.Base.Table.{Table}
use doc_query.Base.Errors.{Code, AppError}
use doc_query.Base.Attempt.{Attempt, got, threw, Failure, failure, and_then}
use doc_query.Text.{codes, trim, join, text_eq}
use doc_query.Pagination.{
  Value, num, infinity, nan, undefined, negative, object, Query, parse_pagination_params,
  OffsetPagination, build_offset_pagination, CursorPage, build_cursor_pagination,
}
use doc_query.Context.{first_set}
use doc_query.Query.Rows.{Args, Turn, Mode, Answer, Citation}
use Views.{
  missing, bad_skip, is_empty, title_or_default, skip_to, or_one, Counted, ConversationList,
  Sourced, OffsetPage, Listing, Reply, decoded, has_page, from_cursor, add_sources, by_offset,
  by_cursor,
}
use Sending.{Sent, Defaults, message_args, generated_title, titled_anew, question_of, answer_of}
use Rows.{Conversation, Message, Source, State, owned, of_user, in_conversation, of_message, Orders}

module _ {X : Type 0} (conversations : Table Conversation) (messages : Table Message)
    (sources : Table Source) (orders : Orders) where
  -- `findByIdAndOrgAndUser`
  abbrev pub find_owned : ℕ → ℕ → ℕ → State X → Option Conversation
  find_owned id org user s = conversations.find (owned id org user) s.conversations

  abbrev pub counted : State X → Conversation → Counted
  counted s c = record {
    conversation = c;
    message_count = messages.count_where (in_conversation c.id) s.messages;
  }

  pub create_conversation : ℕ → ℕ → ℕ → List ℕ → ℕ → State X → Conversation × State X
  create_conversation new_id org user title now s =
      let row : Conversation = record {
        id = new_id;
        organization_id = org;
        user_id = user;
        title = title_or_default title;
        updated_at = now;
      } in
      (row, record s { conversations = conversations.create row s.conversations })

  pub list_conversations : (List ℕ → Value) → ℕ → ℕ → Query → State X → Attempt ConversationList
  list_conversations parse_int org user q s =
      let params = parse_pagination_params parse_int q in
      let mine = orders.latest_first (conversations.find_many (of_user org user) s.conversations) in
      and_then (skip_to params.page params.limit) λ skip. got record {
        conversations = map (counted s) (take params.limit (drop skip mine));
        pagination =
            build_offset_pagination
              (num (conversations.count_where (of_user org user) s.conversations)) params.page
              (num params.limit);
      }

  pub get_conversation : ℕ → ℕ → ℕ → State X → Attempt Counted
  get_conversation id org user s = elim (find_owned id org user s) [
    | none ↦ threw missing
    | some c ↦ got (counted s c)
  ]

  -- `update`, with a title.
  abbrev pub set_title : ℕ → ℕ → ℕ → List ℕ → ℕ → State X → State X
  set_title id org user title now s = record s {
    conversations =
        conversations.update (owned id org user)
          (λ (c : Conversation). record c { title = title; updated_at = now }) s.conversations;
  }

  pub update_conversation : ℕ → ℕ → ℕ → List ℕ → ℕ → State X → Attempt (List ℕ) × State X
  update_conversation id org user title now s = elim (find_owned id org user s) [
    | none ↦ (threw missing, s)
    | some c ↦ (got (trim title), set_title id org user (trim title) now s)
  ]

  -- `delete`, with the rows that refer to the conversation (`onDelete: Cascade`).
  abbrev pub delete_rows : ℕ → ℕ → ℕ → State X → State X
  delete_rows id org user s = record s {
    conversations = conversations.delete (owned id org user) s.conversations;
    messages = messages.delete (in_conversation id) s.messages;
    sources =
        sources.delete
          (λ (x : Source).
            any (λ (m : Message). in_conversation id m && m.id == x.message_id) s.messages)
          s.sources;
  }

  pub delete_conversation : ℕ → ℕ → ℕ → State X → Attempt (Unit {0}) × State X
  delete_conversation id org user s = elim (find_owned id org user s) [
    | none ↦ (threw missing, s)
    | some c ↦ (got tt, delete_rows id org user s)
  ]

  abbrev pub messages_of : ℕ → State X → List Message
  messages_of id s = orders.oldest_first (messages.find_many (in_conversation id) s.messages)

  abbrev pub sourced : State X → Message → Sourced
  sourced s m = record { message = m; sources = sources.find_many (of_message m.id) s.sources }

  -- The page of messages by its cursor.
  unfoldable pub cursor_page :
      (Sourced → List ℕ)
      → (List ℕ → Attempt (Option ℕ))
      → ℕ
      → ℕ
      → Option (List ℕ)
      → State X
      → Attempt (CursorPage Sourced (List ℕ))
  cursor_page encode decode id limit cursor s = and_then (decoded decode cursor) λ from. got (
      build_cursor_pagination encode
        (map (sourced s) (take (suc limit) (from_cursor orders from (messages_of id s)))) limit)

  unfoldable pub offset_page : ℕ → ℕ → Value → State X → Attempt OffsetPage
  offset_page id limit page s = and_then (skip_to page limit) λ skip. got record {
    data_ = map (sourced s) (take limit (drop skip (messages_of id s)));
    pagination =
        build_offset_pagination (num (messages.count_where (in_conversation id) s.messages)) page
          (num limit);
  }

  unfoldable pub list_messages :
      (Sourced → List ℕ)
      → (List ℕ → Attempt (Option ℕ))
      → (List ℕ → Value)
      → ℕ
      → ℕ
      → ℕ
      → Query
      → State X
      → Attempt (Listing (List ℕ))
  unfolding cursor_page offset_page
  list_messages encode decode parse_int id org user q s = elim (find_owned id org user s) [
    | none ↦ threw missing
    | some c ↦
        let params = parse_pagination_params parse_int q in
        if has_page q.page
        then and_then (offset_page id params.limit (or_one (parse_int q.page)) s)
            (λ p. got (by_offset p))
        else and_then (cursor_page encode decode id params.limit params.cursor s)
            (λ p. got (by_cursor p))
  ]

  -- `createMessage`
  abbrev pub add_message : Message → ℕ → State X → State X
  add_message m now s = record s {
    messages = messages.create m s.messages;
    conversations =
        conversations.update (λ (c : Conversation). c.id == m.conversation_id)
          (λ (c : Conversation). record c { updated_at = now }) s.conversations;
  }

  -- `getRecentMessages`
  pub recent_messages : ℕ → ℕ → State X → List Message
  recent_messages id limit s =
      reverse
        (take limit (orders.newest_first (messages.find_many (in_conversation id) s.messages)))

  -- `createAssistantMessageWithSources`
  pub add_answer : Message → List Citation → ℕ → State X → State X
  add_answer m citations now s = record (add_message m now s) {
    sources = add_sources sources m.id citations s.sources;
  }

  -- What follows an answer.
  pub reply : ℕ → ℕ → ℕ → Sent → Conversation → List Message → Answer → State X → Reply × State X
  unfolding add_answer
  reply id org user sent c prior r s =
      let answered = add_answer (answer_of id sent r) r.citations sent.answered_at s in
      let anew = titled_anew c prior in
      let final =
        if anew
        then set_title id org user (generated_title sent.content) sent.answered_at answered
        else answered in
      (
        record {
          title = if anew then generated_title sent.content else c.title;
          user_message = question_of id sent;
          assistant_message = sourced answered (answer_of id sent r);
          citations = r.citations;
        },
        final,
      )

  -- What follows the call of the query service; a failed question stays in the conversation.
  pub after_answer :
      ℕ
      → ℕ
      → ℕ
      → Sent
      → Conversation
      → List Message
      → State X
      → Attempt Answer × X
      → Attempt Reply × State X
  unfolding reply
  after_answer id org user sent c prior s (threw e, x) = (threw e, record s { rag = x })
  after_answer id org user sent c prior s (got r, x) =
      let (answer, after) = reply id org user sent c prior r (record s { rag = x }) in
      (got answer, after)

  unfoldable pub send_message :
      (Args → X → Attempt Answer × X)
      → Defaults
      → ℕ
      → ℕ
      → ℕ
      → Sent
      → State X
      → Attempt Reply × State X
  unfolding recent_messages after_answer
  send_message ask defaults id org user sent s = elim (find_owned id org user s) [
    | none ↦ (threw missing, s)
    | some c ↦
        let prior = recent_messages id (first_set (defaults.history_limit ∷ []) 10) s in
        let asked = add_message (question_of id sent) sent.now s in
        after_answer id org user sent c prior asked
          (ask (message_args defaults org sent prior) asked.rag)
  ]
