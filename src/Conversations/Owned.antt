-- ===== src/Conversations/Owned.antt =====
-- What a user can do to a conversation of somebody else (modules/conversations).
use doc_query.Base.{
  ◌&&◌, ℕ, ◌≡◌, refl, ◌∙◌, ap, sym, ◌==◌, Bool, true, false, Option, none, some, List, [], ◌∷◌,
  keep, first, All, arith, if◌then◌else◌,
}
use doc_query.Base.Table.{Table}
use doc_query.Base.Attempt.{Attempt, got, threw}
use doc_query.Pagination.{Value, Query}
use doc_query.Query.Rows.{Args, Answer}
use doc_query.Conversations.{
  get_conversation, list_messages, create_conversation, update_conversation, delete_conversation,
  send_message, find_owned, set_title, delete_rows, add_message, reply, add_answer, after_answer,
}
use doc_query.Conversations.Views.{missing, Sourced}
use doc_query.Conversations.Rows.{
  Conversation, Message, Source, State, Orders, owned, in_conversation,
}
use doc_query.Conversations.Sending.{Sent, Defaults, titled_anew, answer_of, question_of}
use doc_query.Conversations.Others.{
  keep-snoc, keep-others, first-snoc_none, first-keep-none, first-update_none, other_id,
}

-- Conversation `k` of a user in an organization.
abbrev pub theirs : ℕ → ℕ → ℕ → Conversation → Bool
theirs k org user c = c.id == k && c.organization_id == org && c.user_id == user

-- A change by a user, on a conversation.
pub data Request : Type 0 where
  creates : ℕ → List ℕ → ℕ → Request
  renames : ℕ → List ℕ → ℕ → Request
  removes : ℕ → Request
  sends : ℕ → Sent → Request

-- The identifier of a new conversation is new.
abbrev pub Fresh : ℕ → Request → Type 0
Fresh k (creates id title now) = (id == k) ≡ false
Fresh k _ = Unit

-- Conversation `k` is no conversation of the user, and its messages are those of another state.
record Untouched {X : Type 0} (k org user : ℕ) (s s' : State X) : Type 0 where
  closed : first (owned k org user) s'.conversations ≡ none
  same : keep (in_conversation k) s'.messages ≡ keep (in_conversation k) s.messages

module _ {X : Type 0} (conversations : Table Conversation) (messages : Table Message)
    (sources : Table Source) (orders : Orders) (ask : Args → X → Attempt Answer × X)
    (defaults : Defaults) (k org user : ℕ) where
  abbrev perform : Request → State X → State X
  perform (creates id title now) s =
      (create_conversation conversations messages sources orders id org user title now s).1
  perform (renames id title now) s =
      (update_conversation conversations messages sources orders id org user title now s).1
  perform (removes id) s =
      (delete_conversation conversations messages sources orders id org user s).1
  perform (sends id sent) s =
      (send_message conversations messages sources orders ask defaults id org user sent s).1

  -- The requests, one after the other.
  abbrev pub run : List Request → State X → State X
  run [] s = s
  run (r ∷ rs) s = run rs (perform r s)

  Untouched-self :
      (s : State X) → first (owned k org user) s.conversations ≡ none → Untouched k org user s s
  Untouched-self s h = record { closed = h; same = refl }

  set_title-Untouched :
      (id : ℕ) (title : List ℕ) (now : ℕ) (s s' : State X)
      → Untouched k org user s s'
      → Untouched k org user s
          (set_title conversations messages sources orders id org user title now s')
  set_title-Untouched id title now s s' h = record {
    closed =
        ap (first (owned k org user)) (conversations.update_lem _ _ s'.conversations)
        ∙ first-update_none (owned k org user) (owned id org user) _ s'.conversations (λ c. refl)
            h.closed;
    same = h.same;
  }

  add_message-Untouched :
      (m : Message) (now : ℕ) (s s' : State X)
      → (m.conversation_id == k) ≡ false
      → Untouched k org user s s'
      → Untouched k org user s (add_message conversations messages sources orders m now s')
  add_message-Untouched m now s s' other h = record {
    closed =
        ap (first (owned k org user)) (conversations.update_lem _ _ s'.conversations)
        ∙ first-update_none (owned k org user) _ _ s'.conversations (λ c. refl) h.closed;
    same =
        ap (keep (in_conversation k)) (messages.create_lem m s'.messages)
        ∙ keep-snoc (in_conversation k) s'.messages m other
        ∙ h.same;
  }

  delete_rows-Untouched :
      (id : ℕ) (s : State X)
      → (id == k) ≡ false
      → Untouched k org user s s
      → Untouched k org user s (delete_rows conversations messages sources orders id org user s)
  delete_rows-Untouched id s other h = record {
    closed =
        ap (first (owned k org user)) (conversations.delete_lem _ s.conversations)
        ∙ first-keep-none (owned k org user) _ s.conversations h.closed;
    same =
        ap (keep (in_conversation k)) (messages.delete_lem _ s.messages)
        ∙ keep-others id k s.messages other;
  }

  with_rag :
      (s s' : State X) (x : X)
      → Untouched k org user s s'
      → Untouched k org user s (record s' { rag = x })
  with_rag s s' x h = record { closed = h.closed; same = h.same }

  Untouched-if :
      (b : Bool) (s s1 s2 : State X)
      → Untouched k org user s s1
      → Untouched k org user s s2
      → Untouched k org user s (if b then s1 else s2)
  Untouched-if true s s1 s2 h1 h2 = h1
  Untouched-if false s s1 s2 h1 h2 = h2

  reply-Untouched :
      (id : ℕ) (sent : Sent) (c : Conversation) (prior : List Message) (r : Answer) (s s' : State X)
      → (id == k) ≡ false
      → Untouched k org user s s'
      → Untouched k org user s
          (reply conversations messages sources orders id org user sent c prior r s').1
  unfolding reply add_answer
  reply-Untouched id sent c prior r s s' other h =
      let t = add_message-Untouched (answer_of id sent r) sent.answered_at s s' other h in
      let answered : Untouched k org user s (
          add_answer conversations messages sources orders (answer_of id sent r) r.citations
            sent.answered_at s') =
        record { closed = t.closed; same = t.same } in
      Untouched-if (titled_anew c prior) s _ _
        (set_title-Untouched id _ sent.answered_at s _ answered) answered

  -- A request goes on only for a conversation of the user.
  Untouched-found :
      {A : Type 0} (id : ℕ) (s : State X) (go : Conversation → Attempt A × State X)
      → first (owned k org user) s.conversations ≡ none
      → ((c : Conversation) → (id == k) ≡ false → Untouched k org user s (go c).1)
      → Untouched k org user s
          (elim (find_owned conversations messages sources orders id org user s)
            as (λ _. Attempt A × State X) [ none ↦ (threw missing, s) | some c ↦ go c ]).1
  Untouched-found {A = A} id s go h each =
      by_row (find_owned conversations messages sources orders id org user s) refl
    where
      by_row :
          (o : Option Conversation)
          → find_owned conversations messages sources orders id org user s ≡ o
          → Untouched k org user s
              (elim o as (λ _. Attempt A × State X) [ none ↦ (threw missing, s) | some c ↦ go c ]).1
      by_row none found = Untouched-self s h
      by_row (some c) found = each c (
          other_id id k org user s.conversations c
            (sym (conversations.find_lem (owned id org user) s.conversations) ∙ found) h)

  answered-Untouched :
      (id : ℕ) (sent : Sent) (c : Conversation) (prior : List Message) (s s' : State X)
      (t : Attempt Answer × X)
      → (id == k) ≡ false
      → Untouched k org user s s'
      → Untouched k org user s
          (after_answer conversations messages sources orders id org user sent c prior s' t).1
  unfolding after_answer
  answered-Untouched id sent c prior s s' (threw e, x) other h = with_rag s s' x h
  answered-Untouched id sent c prior s s' (got r, x) other h =
      reply-Untouched id sent c prior r s (record s' { rag = x }) other (with_rag s s' x h)

  perform-Untouched :
      (r : Request) (s : State X)
      → Fresh k r
      → first (owned k org user) s.conversations ≡ none
      → Untouched k org user s (perform r s)
  unfolding create_conversation update_conversation delete_conversation send_message
  perform-Untouched (creates id title now) s fresh h = record {
    closed =
        ap (first (owned k org user)) (conversations.create_lem _ s.conversations)
        ∙ first-snoc_none (owned k org user) s.conversations _ h (ground (arith, fresh));
    same = refl;
  }
  perform-Untouched (renames id title now) s fresh h =
      Untouched-found id s _ h λ c other. set_title-Untouched id _ now s s (Untouched-self s h)
  perform-Untouched (removes id) s fresh h =
      Untouched-found id s _ h λ c other. delete_rows-Untouched id s other (Untouched-self s h)
  perform-Untouched (sends id sent) s fresh h = Untouched-found id s _ h λ c other.
      answered-Untouched id sent c _ s _ _ other
        (add_message-Untouched (question_of id sent) sent.now s s other (Untouched-self s h))

  run-Untouched :
      (rs : List Request) (s : State X)
      → All (Fresh k) rs
      → first (owned k org user) s.conversations ≡ none
      → Untouched k org user s (run rs s)
  run-Untouched [] s fresh h = Untouched-self s h
  run-Untouched (r ∷ rs) s fresh h =
      let step = perform-Untouched r s fresh.0 h in
      let later = run-Untouched rs (perform r s) fresh.1 step.closed in
      record { closed = later.closed; same = later.same ∙ step.same }

  -- Whatever a user asks for, in any order, about any conversations, their own or not: the messages of
  -- a conversation that is not theirs stay as they are, and reading it is answered as if it did not
  -- exist.
  pub run-closed :
      (encode : Sourced → List ℕ) (decode : List ℕ → Attempt (Option ℕ))
      (parse_int : List ℕ → Value) (q : Query) (rs : List Request) (s : State X)
      → All (Fresh k) rs
      → first (theirs k org user) s.conversations ≡ none
      → (keep (in_conversation k) (run rs s).messages ≡ keep (in_conversation k) s.messages)
        × (get_conversation conversations messages sources orders k org user (run rs s)
            ≡ threw missing)
        × (list_messages conversations messages sources orders encode decode parse_int k org user q
              (run rs s)
            ≡ threw missing)
  unfolding get_conversation list_messages
  run-closed encode decode parse_int q rs s fresh h =
      let after = run-Untouched rs s fresh h in
      let gone =
        conversations.find_lem (owned k org user) (run rs s).conversations ∙ after.closed in
      (after.same, rw (gone, get_conversation) refl, rw (gone, list_messages) refl)
