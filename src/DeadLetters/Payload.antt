-- ===== src/DeadLetters/Payload.antt =====
-- workers/dlq.service.js: the data of a failed job without the texts under secret keys. A value is
-- what `JSON.stringify` sees of it.
use doc_query.Base.{ℕ, Bool, true, false, ◌||◌, List, [], ◌∷◌, any}
use doc_query.Text.{codes, lower, starts_with}

mutual
  pub data Json : Type 0 where
    null : Json
    boolean : Bool → Json
    number : ℕ → Json
    text : List ℕ → Json
    array : Items → Json
    object : Fields → Json

  pub data Items : Type 0 where
    no_items : Items
    item : Json → Items → Items

  pub data Fields : Type 0 where
    no_fields : Fields
    field : List ℕ → Json → Fields → Fields

-- A pattern somewhere in a text.
abbrev pub within : List ℕ → List ℕ → Bool
within p [] = starts_with p []
within p (c ∷ s) = starts_with p (c ∷ s) || within p s

-- `/secret|password|token|key|content|rawText/i`
unfoldable pub is_secret : List ℕ → Bool
is_secret key =
    any (λ p. within p (lower key))
      (codes "secret"
        ∷ codes "password"
        ∷ codes "token"
        ∷ codes "key"
        ∷ codes "content"
        ∷ codes "rawtext"
        ∷ [])

abbrev pub redacted : List ℕ
redacted = codes "[REDACTED]"

-- What a value becomes under a key that is secret or not. The indices of an array are not secret.
unfoldable mutual
  pub sanitize : Bool → Json → Json
  sanitize true (text s) = text redacted
  sanitize false (text s) = text s
  sanitize b null = null
  sanitize b (boolean c) = boolean c
  sanitize b (number n) = number n
  sanitize b (array xs) = array (sanitize_items xs)
  sanitize b (object fs) = object (sanitize_fields fs)

  pub sanitize_items : Items → Items
  sanitize_items no_items = no_items
  sanitize_items (item v xs) = item (sanitize false v) (sanitize_items xs)

  pub sanitize_fields : Fields → Fields
  sanitize_fields no_fields = no_fields
  sanitize_fields (field k v fs) = field k (sanitize (is_secret k) v) (sanitize_fields fs)

-- `cleanData`; the replacer first sees the value under the empty key.
abbrev pub sanitized : Json → Json
sanitized v = sanitize false v
