-- ===== src/Conversations/Sending.antt =====
-- How a message becomes a question and rows of the conversation (sendMessage of
-- modules/conversations/conversation.service.js).
use doc_query.Base.{
  ℕ, Bool, true, false, ◌&&◌, ltb, Option, none, List, [], ◌∷◌, ◌++◌, ◌-◌, map, keep, take, drop,
  length, if◌then◌else◌,
}
use doc_query.Text.{codes, join, text_eq}
use doc_query.Query.Rows.{Args, Mode, Answer}
use doc_query.Conversations.Rows.{Conversation, Message}

-- The arguments of a message, with the identifiers of the rows it makes and the time.
pub record Sent : Type 0 where
  pub content : List ℕ
  pub top_k : Option ℕ
  pub document_id : Option ℕ
  pub threshold : Option ℕ
  pub user_message_id : ℕ
  pub assistant_message_id : ℕ
  pub now : ℕ
  -- the time when the answer is there
  pub answered_at : ℕ

-- The defaults of the parameters of `query`, and CONVERSATION_HISTORY_LIMIT.
pub record Defaults : Type 0 where
  pub answer_mode : Mode
  pub enable_hybrid : Bool
  pub enable_reranking : Bool
  pub history_limit : ℕ

abbrev last_two : List (List ℕ) → List (List ℕ)
last_two ts = drop (length ts - 2) ts

abbrev contents_of_user : List Message → List (List ℕ)
contents_of_user ms = map (λ (m : Message). m.content) (keep (λ (m : Message). m.from_user) ms)

abbrev with_content : List (List ℕ) → List ℕ → List ℕ
with_content [] content = content
with_content (t ∷ ts) content = join (t ∷ ts) ++ 32 ∷ content

-- `retrievalQuery`
pub retrieval_query : List Message → List ℕ → List ℕ
retrieval_query prior content = with_content (last_two (contents_of_user prior)) content

-- What the query service is called with.
unfoldable pub message_args : Defaults → ℕ → Sent → List Message → Args
unfolding retrieval_query
message_args defaults org sent prior = record {
  organization_id = org;
  query = sent.content;
  top_k = sent.top_k;
  document_id = sent.document_id;
  threshold = sent.threshold;
  history = map (λ (m : Message). record { from_user = m.from_user; content = m.content }) prior;
  retrieval_query = retrieval_query prior sent.content;
  user_id = none;
  user_role = none;
  allowed = none;
  answer_mode = defaults.answer_mode;
  enable_hybrid = defaults.enable_hybrid;
  enable_reranking = defaults.enable_reranking;
}

-- `generatedTitle`, for the first message under the default title.
abbrev pub generated_title : List ℕ → List ℕ
generated_title content =
    if ltb 50 (length content) then take 47 content ++ codes "..." else content

abbrev is_first : List Message → Bool
is_first [] = true
is_first (m ∷ ms) = false

abbrev pub titled_anew : Conversation → List Message → Bool
titled_anew c prior = text_eq c.title (codes "New Conversation") && is_first prior

abbrev pub question_of : ℕ → Sent → Message
question_of id sent = record {
  id = sent.user_message_id;
  conversation_id = id;
  from_user = true;
  content = sent.content;
  created_at = sent.now;
}

abbrev pub answer_of : ℕ → Sent → Answer → Message
answer_of id sent r = record {
  id = sent.assistant_message_id;
  conversation_id = id;
  from_user = false;
  content = r.answer;
  created_at = sent.answered_at;
}
