-- ===== src/Conversations/Unrestricted.antt =====
-- Which documents a message of a conversation may use (modules/conversations/conversation.service.js
-- with modules/query/query.service.js).
use doc_query.Base.{ℕ, ◌≡◌, refl, some}
use doc_query.Base.Table.{Table}
use doc_query.Base.Attempt.{Attempt}
use doc_query.Roles.{owner}
use doc_query.Access.Rows.{Grant}
use doc_query.Access.Rows as AccessRows
use doc_query.Documents.Rows.{Document}
use doc_query.Search.Rows.{Engine}
use doc_query.Redis.{Client}
use doc_query.Query.{
  query, cached_answer, answer_fresh, effective_query, retrieve, allowed_documents, conclude,
  respond, finish,
}
use doc_query.Query.Cache.{cache_get, cache_set}
use doc_query.Query.Rows.{Args, Answer, Settings, Services}
use doc_query.Query.Rows as QueryRows
use doc_query.Conversations.Rows.{Conversation, Message, Source, Orders, State}
use doc_query.Conversations.{send_message}
use doc_query.Conversations.Sending.{Sent, Defaults, message_args}

module _ {C : Type 0} (client : Client C Answer) (docs : Table Document)
    (access_docs : Table AccessRows.Document) (grants : Table Grant) (e : Engine) (sv : Services)
    (st : Settings) (conversations : Table Conversation) (messages : Table Message)
    (sources : Table Source) (orders : Orders) where
  abbrev pub ask : Args → QueryRows.State C → Attempt Answer × QueryRows.State C
  ask a s = query client docs access_docs grants e sv st a s

  -- The query service, for an owner of the organization.
  abbrev pub ask_as_owner : ℕ → Args → QueryRows.State C → Attempt Answer × QueryRows.State C
  ask_as_owner u a s =
      query client docs access_docs grants e sv st
        (record a { user_id = some u; user_role = some owner }) s

  -- Whoever sends a message in their conversation, it is answered, stored and cached as the message
  -- of an owner of the organization would be: the grants on the documents restrict nothing.
  pub send_message-as_owner :
      (defaults : Defaults) (id org user u : ℕ) (sent : Sent) (s : State (QueryRows.State C))
      → send_message conversations messages sources orders ask defaults id org user sent s
        ≡ send_message conversations messages sources orders
            (ask_as_owner u)
            defaults
            id
            org
            user
            sent
            s
  unfolding send_message query cached_answer answer_fresh effective_query retrieve allowed_documents
      conclude respond finish message_args cache_set cache_get
  send_message-as_owner defaults id org user u sent s = refl
