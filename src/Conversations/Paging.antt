-- ===== src/Conversations/Paging.antt =====
-- Reading a conversation page by page (listMessages of modules/conversations/conversation.service.js).
use doc_query.Base.{
  ℕ, zero, suc, ◌≡◌, refl, ◌∙◌, ap, sym, subst, ◌<◌, Bool, true, false, Option, none, some, List,
  [], ◌∷◌, ◌++◌, map, keep, take, length, count, arith,
}
use doc_query.Base.Table.{Table}
use doc_query.Base.Keyed.{Distinct, Distinct-keep}
use doc_query.Base.Reordered.{Distinct-reordered}
use doc_query.Conversations.Times.{id_of, created_of, length-all, Rising-Ordered, count-before}
use doc_query.Base.Attempt.{Attempt, got, threw, and_then}
use doc_query.Pagination.{
  Value, CursorPage, build_cursor_pagination, parse_pagination_params,
  parse_pagination_params-limit,
}
use doc_query.Pagination.Walk.{walk, walk_complete}
use doc_query.Conversations.{sourced, messages_of, cursor_page, list_messages}
use doc_query.Conversations.Cursor.{Encoding, cursor_of, cursor_id, cursor_id-encoded}
use doc_query.Conversations.Views.{Sourced, Listing, by_cursor, by_offset}
use doc_query.Conversations.Rows.{
  Conversation, Message, Source, State, Orders, Rising, owned, in_conversation,
}

module _ {A B : Type 0} (f : A → B) where
  -- A list of images is cut where the list is.
  split-map :
      (xs : List A) (pre post : List B) (y : B)
      → pre ++ y ∷ post ≡ map f xs
      → (a : List A) × (x : A) × (b : List A) × (xs ≡ a ++ x ∷ b) × (f x ≡ y) × (map f b ≡ post)
  split-map [] [] post y h = absurd (ground arith)
  split-map [] (z ∷ pre) post y h = absurd (ground arith)
  split-map (x ∷ xs) [] post y h = ([], x, xs, refl, ground arith, ground arith)
  split-map (x ∷ xs) (z ∷ pre) post y h =
      let (a, w, b, cut, same, rest) = split-map xs pre post y (ground arith) in
      (x ∷ a, w, b, ap (λ t. x ∷ t) cut, same, rest)

  take-map : (n : ℕ) (xs : List A) → map f (take n xs) ≡ take n (map f xs)
  take-map zero xs = refl
  take-map (suc n) [] = refl
  take-map (suc n) (x ∷ xs) = ap (λ t. f x ∷ t) (take-map n xs)

  length-map : (xs : List A) → length (map f xs) ≡ length xs
  length-map [] = refl
  length-map (x ∷ xs) = ap suc (length-map xs)

-- The text of a cursor is not empty, and decoded to the identifier.
pub record Cursors (encode : Sourced → List ℕ) (decode : List ℕ → Attempt (Option ℕ)) : Type 0 where
  pub visible : (m : Sourced) → (c : ℕ) × (t : List ℕ) × (encode m ≡ c ∷ t)
  pub decoded : (m : Sourced) → decode (encode m) ≡ got (some m.message.id)

encoding-Cursors : (enc : Encoding) → Cursors (cursor_of enc) (cursor_id enc)
encoding-Cursors enc = record {
  visible = λ m.
      let (c, t, shape) = enc.uuid_text-visible m.message.id in
      let (k, u, coded) = enc.base64url-visible c t in (k, u, ap enc.to_base64url shape ∙ coded);
  decoded = λ m. cursor_id-encoded enc m.message.id;
}

-- The text of a request's cursor.
abbrev pub cursor_text : Option (List ℕ) → List ℕ
cursor_text none = []
cursor_text (some k) = k

abbrev no_page : CursorPage Sourced (List ℕ)
no_page = record { data_ = []; has_next_page = false; next_cursor = none }

abbrev pub page_of : Attempt (Listing (List ℕ)) → CursorPage Sourced (List ℕ)
page_of (got (by_cursor p)) = p
page_of (got (by_offset p)) = no_page
page_of (threw e) = no_page

abbrev pub limit_of : (List ℕ → Value) → List ℕ → ℕ
limit_of parse_int limit =
    (parse_pagination_params parse_int (record { limit = limit; page = []; cursor = [] })).limit

module _ {X : Type 0} (conversations : Table Conversation) (messages : Table Message)
    (sources : Table Source) (orders : Orders) (encode : Sourced → List ℕ)
    (decode : List ℕ → Attempt (Option ℕ)) (parse_int : List ℕ → Value) where
  -- A request for the messages from a cursor on.
  abbrev pub ask_page : ℕ → ℕ → ℕ → List ℕ → State X → Option (List ℕ) → CursorPage Sourced (List ℕ)
  ask_page id org user limit s cursor = page_of (
      list_messages conversations messages sources orders encode decode parse_int id org user
        (record { limit = limit; page = []; cursor = cursor_text cursor }) s)

  abbrev pub all_messages : ℕ → State X → List Sourced
  all_messages id s =
      map (sourced conversations messages sources orders s)
        (messages_of conversations messages sources orders id s)

  -- The rows of a conversation, by the time of creation.
  abbrev pub rows_of : ℕ → State X → List Message
  rows_of id s = messages_of conversations messages sources orders id s

  count-rows_of :
      (id : ℕ) (s : State X) (p : Message → Bool)
      → count p (rows_of id s) ≡ count p (keep (in_conversation id) s.messages)
  count-rows_of id s p =
      orders.oldest_first_lem (messages.find_many (in_conversation id) s.messages) p
      ∙ ap (count p) (messages.find_many_lem (in_conversation id) s.messages)

  -- The page of some rows.
  abbrev shown : ℕ → State X → List Message → CursorPage Sourced (List ℕ)
  shown limit s rows =
      build_cursor_pagination encode
        (take (suc limit) (map (sourced conversations messages sources orders s) rows)) limit

  ask_page-first :
      (id org user : ℕ) (limit : List ℕ) (s : State X) (c : Conversation)
      → conversations.find (owned id org user) s.conversations ≡ some c
      → ask_page id org user limit s none ≡ shown (limit_of parse_int limit) s (rows_of id s)
  unfolding list_messages cursor_page and_then parse_pagination_params
  ask_page-first id org user limit s c found =
      let f = sourced conversations messages sources orders s in
      rw (found, list_messages)
        (ap (λ rows. build_cursor_pagination encode rows (limit_of parse_int limit))
          (take-map f (suc (limit_of parse_int limit)) (rows_of id s)))

  ask_page-from :
      (id org user : ℕ) (limit : List ℕ) (s : State X) (c : Conversation) (k : ℕ) (t : List ℕ)
      (i : ℕ)
      → conversations.find (owned id org user) s.conversations ≡ some c
      → decode (k ∷ t) ≡ got (some i)
      → ask_page id org user limit s (some (k ∷ t))
        ≡ shown (limit_of parse_int limit) s (orders.after i (rows_of id s))
  unfolding list_messages cursor_page and_then parse_pagination_params
  ask_page-from id org user limit s c k t i found known =
      let f = sourced conversations messages sources orders s in
      rw (found, known, list_messages)
        (ap (λ rows. build_cursor_pagination encode rows (limit_of parse_int limit))
          (take-map f (suc (limit_of parse_int limit)) (orders.after i (rows_of id s))))

  ask_page-next :
      (id org user : ℕ) (limit : List ℕ) (s : State X) (c : Conversation)
      → Cursors encode decode
      → conversations.find (owned id org user) s.conversations ≡ some c
      → Distinct id_of (rows_of id s)
      → Rising (rows_of id s)
      → (pre post : List Sourced) (m : Sourced) → pre ++ m ∷ post ≡ all_messages id s
      → ask_page id org user limit s (some (encode m))
        ≡ build_cursor_pagination encode
            (take (suc (limit_of parse_int limit)) post)
            (limit_of parse_int limit)
  ask_page-next id org user limit s c cursors found distinct rising pre post m split =
      let f = sourced conversations messages sources orders s in
      let (k, t, shape) = cursors.visible m in
      let rows = rows_of id s in
      let (a, w, b, cut, same, rest) = split-map f rows pre post m split in
      let here = count-before a w b (subst (Distinct id_of) cut distinct) in
      let known : decode (k ∷ t) ≡ got (some w.id) =
        subst (λ r. decode r ≡ got (some w.id)) shape
          (cursors.decoded m ∙ ap (λ (x : Sourced). got (some x.message.id)) (sym same)) in
      let later : orders.after w.id rows ≡ b =
        ap (orders.after w.id) cut ∙ orders.after_lem a b w (subst Rising cut rising) here in
      ap (λ r. ask_page id org user limit s (some r)) shape
      ∙ ask_page-from id org user limit s c k t w.id found known
      ∙ ap (shown (limit_of parse_int limit) s) later
      ∙ ap
          (λ r.
            build_cursor_pagination encode (take (suc (limit_of parse_int limit)) r)
              (limit_of parse_int limit))
          rest

  complete_by :
      (id org user : ℕ) (limit : List ℕ) (s : State X) (c : Conversation) (n : ℕ)
      → Cursors encode decode
      → conversations.find (owned id org user) s.conversations ≡ some c
      → Distinct id_of s.messages
      → Distinct created_of (keep (in_conversation id) s.messages)
      → length (keep (in_conversation id) s.messages) < n
      → walk (ask_page id org user limit s) n none ≡ all_messages id s
  complete_by id org user limit s c n cursors found distinct no_ties fuel =
      let rows = keep (in_conversation id) s.messages in
      let same = count-rows_of id s in
      let ids =
        Distinct-reordered id_of rows (rows_of id s) same
          (Distinct-keep id_of (in_conversation id) s.messages distinct) in
      let rising =
        Rising-Ordered (rows_of id s)
          (orders.oldest_first-Ordered (messages.find_many (in_conversation id) s.messages))
          (Distinct-reordered created_of rows (rows_of id s) same no_ties) in
      let f = sourced conversations messages sources orders s in
      walk_complete encode (limit_of parse_int limit) (all_messages id s)
        (ask_page id org user limit s)
        (λ pre post m split.
          ask_page-next id org user limit s c cursors found ids rising pre post m split)
        (parse_pagination_params-limit parse_int _).0 n (ask_page-first id org user limit s c found)
        (omega (
          arith,
          length-map f (rows_of id s),
          length-all (rows_of id s),
          length-all rows,
          same (λ m. true),
          fuel,
        ))

module _ {X : Type 0} (conversations : Table Conversation) (messages : Table Message)
    (sources : Table Source) (orders : Orders) (enc : Encoding) (parse_int : List ℕ → Value) where
  -- The owner of a conversation of which no two messages were created at one time asks for its
  -- messages page by page, following the cursors, at most a number of times that exceeds the number of
  -- messages: they get every message of the conversation with its sources, once, in the order of
  -- creation. The identifiers of messages are distinct.
  pub list_messages_complete :
      (id org user : ℕ) (limit : List ℕ) (s : State X) (c : Conversation) (n : ℕ)
      → conversations.find (owned id org user) s.conversations ≡ some c
      → Distinct id_of s.messages
      → Distinct created_of (keep (in_conversation id) s.messages)
      → length (keep (in_conversation id) s.messages) < n
      → walk
          (ask_page conversations messages sources orders
            (cursor_of enc)
            (cursor_id enc)
            parse_int
            id
            org
            user
            limit
            s)
          n
          none
        ≡ all_messages conversations messages sources orders
            (cursor_of enc)
            (cursor_id enc)
            parse_int
            id
            s
  list_messages_complete id org user limit s c n found distinct no_ties fuel =
      complete_by conversations messages sources orders (cursor_of enc) (cursor_id enc) parse_int id
        org user limit s c n (encoding-Cursors enc) found distinct no_ties fuel
