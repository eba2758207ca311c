-- ===== src/Conversations/Cursor.antt =====
-- The text of a cursor: encodeCursor and decodeCursor of utils/pagination.js, for the identifier of a
-- message, as listMessages of modules/conversations uses them.
use doc_query.Base.{refl, ℕ, ◌≡◌, ◌∙◌, ap, subst, Option, none, some, List, [], ◌∷◌}
use doc_query.Base.Attempt.{Attempt, got, threw, Failure, failure}
use doc_query.Conversations.Views.{Sourced}

-- The texts of identifiers, which the database reads back, and what Buffer makes of a text and of
-- base64url.
pub record Encoding : Type 0 where
  pub uuid_text : ℕ → List ℕ
  pub read_uuid : List ℕ → Option ℕ
  pub to_base64url : List ℕ → List ℕ
  pub from_base64url : List ℕ → List ℕ
  pub read_uuid-text : (n : ℕ) → read_uuid (uuid_text n) ≡ some n
  pub from-to_base64url : (n : ℕ) → from_base64url (to_base64url (uuid_text n)) ≡ uuid_text n
  pub uuid_text-visible : (n : ℕ) → (c : ℕ) × (t : List ℕ) × (uuid_text n ≡ c ∷ t)
  pub base64url-visible :
      (c : ℕ) (s : List ℕ) → (k : ℕ) × (t : List ℕ) × (to_base64url (c ∷ s) ≡ k ∷ t)

-- What the database refuses: a cursor that is no identifier.
abbrev bad_cursor : Failure
bad_cursor = failure none []

-- `encodeCursor`
abbrev pub encode_cursor : Encoding → List ℕ → List ℕ
encode_cursor enc value = enc.to_base64url value

-- `decodeCursor`; Buffer takes any text.
abbrev pub decode_cursor : Encoding → List ℕ → List ℕ
decode_cursor enc cursor = enc.from_base64url cursor

-- `if (cursorId)`, and the identifier that the database reads.
abbrev pub read_id : Encoding → List ℕ → Attempt (Option ℕ)
read_id enc [] = got none
read_id enc (c ∷ s) = elim (enc.read_uuid (c ∷ s)) [
  | none ↦ threw bad_cursor
  | some id ↦ got (some id)
]

abbrev pub cursor_of : Encoding → Sourced → List ℕ
cursor_of enc m = encode_cursor enc (enc.uuid_text m.message.id)

abbrev pub cursor_id : Encoding → List ℕ → Attempt (Option ℕ)
cursor_id enc cursor = read_id enc (decode_cursor enc cursor)

read_id-known :
    (enc : Encoding) (s : List ℕ) (id c : ℕ) (t : List ℕ)
    → s ≡ c ∷ t
    → enc.read_uuid s ≡ some id
    → read_id enc s ≡ got (some id)
read_id-known enc s id c t shape known =
    let here : enc.read_uuid (c ∷ t) ≡ some id =
      subst (λ r. enc.read_uuid r ≡ some id) shape known in
    ap (read_id enc) shape ∙ rw (read_id, here) refl

-- The cursor of a message is read as its identifier.
pub cursor_id-encoded :
    (enc : Encoding) (id : ℕ) → cursor_id enc (encode_cursor enc (enc.uuid_text id)) ≡ got (some id)
cursor_id-encoded enc id =
    let (c, t, shape) = enc.uuid_text-visible id in
    ap (read_id enc) (enc.from-to_base64url id)
    ∙ read_id-known enc (enc.uuid_text id) id c t shape (enc.read_uuid-text id)
