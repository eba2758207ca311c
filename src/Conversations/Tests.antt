-- ===== src/Conversations/Tests.antt =====
-- A conversation of two messages, and the theorems at it.
use doc_query.Base.{◌+◌, ℕ, ◌≡◌, refl, true, none, List, [], ◌∷◌, keep, map, arith}
use doc_query.Base.Table.{Table, in_memory}
use doc_query.Base.Attempt.{Attempt, threw, failure}
use doc_query.Text.{codes}
use doc_query.Pagination.{Value, num}
use doc_query.Pagination.Walk.{walk}
use doc_query.Query.Rows.{Args, strict, Answer, Settings, Services}
use doc_query.Query.Rows as QueryRows
use doc_query.Query.Sample.{client, services, settings, access_docs, grants}
use doc_query.Search.Sample.{engine, docs, two_documents, two_chunks}
use doc_query.Conversations.{
  send_message, get_conversation, list_messages, recent_messages, after_answer,
}
use doc_query.Conversations.Views.{missing}
use doc_query.Conversations.Rows.{Conversation, Message, Source, State, in_conversation}
use doc_query.Conversations.Sending.{Sent, Defaults}
use doc_query.Conversations.Cursor.{cursor_of, cursor_id}
use doc_query.Conversations.Sample.{orders, encoding}
use doc_query.Conversations.Paging.{ask_page, all_messages, list_messages_complete}
use doc_query.Conversations.Owned.{renames, removes, sends, run, run-closed}
use doc_query.Conversations.Unrestricted.{ask, ask_as_owner, send_message-as_owner}

abbrev conversations : Table Conversation
conversations = in_memory

abbrev messages : Table Message
messages = in_memory

abbrev sources : Table Source
sources = in_memory

abbrev message : ℕ → Message
message id = record {
  id = id;
  conversation_id = 1;
  from_user = true;
  content = codes "a";
  created_at = 10 + id;
}

-- A limit of 1.
abbrev parse_int : List ℕ → Value
parse_int s = num 1

abbrev start : State (Unit {0})
start = record {
  conversations =
      record {
        id = 1;
        organization_id = 7;
        user_id = 3;
        title = codes "New Conversation";
        updated_at = 0;
      }
      ∷ [];
  messages = message 6 ∷ message 5 ∷ [];
  sources = [];
  rag = tt;
}

list_messages_complete_example :
    walk
      (ask_page conversations messages sources orders
        (cursor_of encoding)
        (cursor_id encoding)
        parse_int
        1
        7
        3
        []
        start)
      3
      none
    ≡ all_messages conversations messages sources orders
        (cursor_of encoding)
        (cursor_id encoding)
        parse_int
        1
        start
list_messages_complete_example =
    list_messages_complete conversations messages sources orders encoding parse_int 1 7 3 [] start
      (record {
        id = 1;
        organization_id = 7;
        user_id = 3;
        title = codes "New Conversation";
        updated_at = 0;
      })
      3 refl (refl, (refl, tt)) (refl, (refl, tt)) (omega arith)

abbrev sent : Sent
sent = record {
  content = codes "b";
  top_k = none;
  document_id = none;
  threshold = none;
  user_message_id = 8;
  assistant_message_id = 9;
  now = 50;
  answered_at = 51;
}

abbrev defaults : Defaults
defaults = record {
  answer_mode = strict;
  enable_hybrid = true;
  enable_reranking = true;
  history_limit = 0;
}

abbrev failing : Args → Unit {0} → Attempt Answer × Unit {0}
failing a x = (threw (failure none []), x)

-- Where the query service throws, the question stays in the conversation, without an answer.
left_behind :
    map
      (λ (m : Message). m.id)
      (send_message conversations messages sources orders failing defaults 1 7 3 sent
        start).1.messages
    ≡ 6 ∷ 5 ∷ 8 ∷ []
unfolding send_message recent_messages after_answer
left_behind = refl

run-closed_example :
    (keep
        (in_conversation 1)
        (run conversations messages sources orders failing defaults 1 7 4
          (renames 1 (codes "c") 60 ∷ sends 1 sent ∷ removes 1 ∷ [])
          start).messages
      ≡ keep (in_conversation 1) start.messages)
    × (get_conversation conversations messages sources orders 1 7 4 (
          run conversations messages sources orders failing defaults 1 7 4
            (renames 1 (codes "c") 60 ∷ sends 1 sent ∷ removes 1 ∷ [])
            start)
        ≡ threw missing)
    × (list_messages conversations messages sources orders
          (cursor_of encoding)
          (cursor_id encoding)
          parse_int
          1
          7
          4
          (record { limit = []; page = []; cursor = [] })
          (run conversations messages sources orders failing defaults 1 7 4
            (renames 1 (codes "c") 60 ∷ sends 1 sent ∷ removes 1 ∷ [])
            start)
        ≡ threw missing)
run-closed_example =
    run-closed conversations messages sources orders failing defaults 1 7 4 (cursor_of encoding)
      (cursor_id encoding) parse_int (record { limit = []; page = []; cursor = [] })
      (renames 1 (codes "c") 60 ∷ sends 1 sent ∷ removes 1 ∷ []) start (tt, (tt, (tt, tt))) refl

abbrev organization : State (QueryRows.State (List (List ℕ × Answer)))
organization = record {
  conversations = start.conversations;
  messages = [];
  sources = [];
  rag = record { documents = two_documents; grants = []; chunks = two_chunks; cache = [] };
}

send_message-as_owner_example :
    send_message conversations messages sources orders
      (ask client docs access_docs grants engine services settings conversations messages sources
        orders)
      defaults
      1
      7
      3
      sent
      organization
    ≡ send_message conversations messages sources orders
        (ask_as_owner client docs access_docs grants engine services settings conversations messages
          sources orders 5)
        defaults
        1
        7
        3
        sent
        organization
send_message-as_owner_example =
    send_message-as_owner client docs access_docs grants engine services settings conversations
      messages sources orders defaults 1 7 3 5 sent organization
