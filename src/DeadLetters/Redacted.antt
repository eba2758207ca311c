-- ===== src/DeadLetters/Redacted.antt =====
-- What the dead-letter store keeps of secrets in the data of a failed job (workers/dlq.service.js).
use doc_query.Base.{
  ℕ, ◌≡◌, refl, ap, ◌∙◌, sym, subst, Bool, true, false, List, [], ◌∷◌, ◌++◌, arith,
}
use doc_query.Text.{codes, lower, lower_unit, starts_with, starts_with-append}
use doc_query.DeadLetters.{Failed, Entry, capture_failure}
use doc_query.DeadLetters.Payload.{
  Json, text, array, object, Items, no_items, item, Fields, no_fields, field, within, is_secret,
  sanitize, sanitize_items, sanitize_fields,
}

-- The words that make a key secret.
pub data SecretWord : List ℕ → Type 0 where
  secret : SecretWord (codes "secret")
  password : SecretWord (codes "password")
  token : SecretWord (codes "token")
  key : SecretWord (codes "key")
  content : SecretWord (codes "content")
  raw_text : SecretWord (codes "rawtext")

-- A key that has such a word somewhere in it, in any case of its letters.
pub record SecretKey (k : List ℕ) : Type 0 where
  pub before : List ℕ
  pub word : List ℕ
  pub after : List ℕ
  pub split : k ≡ before ++ (word ++ after)
  pub is_word : SecretWord (lower word)

-- The same but for texts that stand directly under secret keys, however deep.
mutual
  pub data Alike : Json → Json → Type 0 where
    same : (v : Json) → Alike v v
    arrays : {xs ys : Items} → AlikeItems xs ys → Alike (array xs) (array ys)
    objects : {fs gs : Fields} → AlikeFields fs gs → Alike (object fs) (object gs)

  pub data AlikeItems : Items → Items → Type 0 where
    none_left : AlikeItems no_items no_items
    items :
        {v w : Json} {xs ys : Items}
        → Alike v w
        → AlikeItems xs ys
        → AlikeItems (item v xs) (item w ys)

  pub data AlikeFields : Fields → Fields → Type 0 where
    no_more : AlikeFields no_fields no_fields
    fields :
        (k : List ℕ) {v w : Json} {fs gs : Fields}
        → Alike v w
        → AlikeFields fs gs
        → AlikeFields (field k v fs) (field k w gs)
    secrets :
        (k : List ℕ) (s t : List ℕ) {fs gs : Fields}
        → SecretKey k
        → AlikeFields fs gs
        → AlikeFields (field k (text s) fs) (field k (text t) gs)

within-starts : (p s : List ℕ) → starts_with p s ≡ true → within p s ≡ true
within-starts p [] h = h
within-starts p (c ∷ s) h = ground (arith, h)

within-append : (p a b : List ℕ) → within p (a ++ (p ++ b)) ≡ true
within-append p [] b = within-starts p (p ++ b) (starts_with-append p b)
within-append p (c ∷ a) b = ground (arith, within-append p a b)

lower-append : (a b : List ℕ) → lower (a ++ b) ≡ lower a ++ lower b
lower-append [] b = refl
lower-append (c ∷ a) b = ap (λ r. lower_unit c ∷ r) (lower-append a b)

within-SecretKey : (k : List ℕ) (h : SecretKey k) → within (lower h.word) (lower k) ≡ true
within-SecretKey k h =
    subst (λ s. within (lower h.word) s ≡ true)
      (sym (
        ap lower h.split
        ∙ lower-append h.before (h.word ++ h.after)
        ∙ ap (λ r. lower h.before ++ r) (lower-append h.word h.after)))
      (within-append (lower h.word) (lower h.before) (lower h.after))

is_secret-word :
    {w : List ℕ} (k : List ℕ) → SecretWord w → within w (lower k) ≡ true → is_secret k ≡ true
unfolding is_secret
is_secret-word k secret h = ground (arith, h)
is_secret-word k password h = ground (arith, h)
is_secret-word k token h = ground (arith, h)
is_secret-word k key h = ground (arith, h)
is_secret-word k content h = ground (arith, h)
is_secret-word k raw_text h = ground (arith, h)

is_secret-SecretKey : (k : List ℕ) → SecretKey k → is_secret k ≡ true
is_secret-SecretKey k h = is_secret-word k h.is_word (within-SecretKey k h)

mutual
  unfolding sanitize

  sanitize-Alike : (b : Bool) {v w : Json} → Alike v w → sanitize b v ≡ sanitize b w
  sanitize-Alike b (same v) = refl
  sanitize-Alike true (arrays h) = ap array (sanitize-AlikeItems h)
  sanitize-Alike false (arrays h) = ap array (sanitize-AlikeItems h)
  sanitize-Alike true (objects h) = ap object (sanitize-AlikeFields h)
  sanitize-Alike false (objects h) = ap object (sanitize-AlikeFields h)

  sanitize-AlikeItems : {xs ys : Items} → AlikeItems xs ys → sanitize_items xs ≡ sanitize_items ys
  sanitize-AlikeItems none_left = refl
  sanitize-AlikeItems (items h hs) = rw (sanitize-Alike false h, sanitize-AlikeItems hs) refl

  sanitize-AlikeFields :
      {fs gs : Fields} → AlikeFields fs gs → sanitize_fields fs ≡ sanitize_fields gs
  sanitize-AlikeFields no_more = refl
  sanitize-AlikeFields (fields k h hs) =
      rw (sanitize-Alike (is_secret k) h, sanitize-AlikeFields hs) refl
  sanitize-AlikeFields (secrets k s t h hs) =
      rw (is_secret-SecretKey k h, sanitize-AlikeFields hs) refl

module _ (redact : List ℕ → List ℕ) where
  -- The record of a failed job, and the store with it, do not depend on the texts in the data of the
  -- job that stand directly under a secret key, however deep: a key that has one of the words secret,
  -- password, token, key, content and rawText in it, in any case of the letters.
  pub capture_failure-Alike :
      (id : ℕ) (f : Failed) (v w : Json) (store : List Entry)
      → Alike v w
      → capture_failure redact id (record f { payload = v }) store
        ≡ capture_failure redact id (record f { payload = w }) store
  unfolding capture_failure
  capture_failure-Alike id f v w store h = rw (sanitize-Alike false h) refl
