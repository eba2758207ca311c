-- ===== src/Embeddings/Batches.antt =====
-- The batches of generateEmbeddings put together (modules/documents/services/embedding.service.js).
use doc_query.Base.{
  ℕ, zero, suc, ◌≡◌, ◌≤◌, refl, sym, ap, subst, ◌∙◌, ◌+◌, ◌==◌, ==_iff, Bool-cases, inl, inr,
  Option, none, some, List, [], ◌∷◌, ◌++◌, All, map, length, take, drop, arith, length-append,
  length-take, length-drop, take-append-drop,
}
use doc_query.Embeddings.{
  Vector, Embedded, Reply, Settings, embedded, thrown, failed, malformed, replied, push,
  of_dimension, accepted, and_rest, loop, generate_embeddings,
}

-- A result that is not an error has `n` vectors, each of dimension `d`.
abbrev pub Complete : ℕ → ℕ → Embedded → Type 0
Complete d n (embedded vs) = (length vs ≡ n) × All (λ v. length v ≡ d) vs
Complete d n (thrown e) = Unit

push_one-Complete :
    (d n : ℕ) (v : Vector) (r : Embedded)
    → length v ≡ d
    → Complete d n r
    → Complete d (suc n) (push (v ∷ []) r)
push_one-Complete d n v (embedded vs) h k = (omega (arith, k.0), (h, k.1))
push_one-Complete d n v (thrown e) h k = tt

of_dimension-Complete :
    (d : ℕ) (vs : List (Option Vector)) → Complete d (length vs) (of_dimension d vs)
of_dimension-Complete d [] = (refl, tt)
of_dimension-Complete d (none ∷ vs) = tt
of_dimension-Complete d (some v ∷ vs) = elim (Bool-cases (length v == d)) [
  | inl right ↦ rw right (
      push_one-Complete d (length vs) v (of_dimension d vs) ((==_iff (length v) d).0 right)
        (of_dimension-Complete d vs))
  | inr wrong ↦ rw wrong tt
]

accepted-Complete : (d n : ℕ) (r : Reply) → Complete d n (accepted d n r)
accepted-Complete d n (failed m) = tt
accepted-Complete d n malformed = tt
accepted-Complete d n (replied vs) = elim (Bool-cases (length vs == n)) [
  | inl right ↦
      let e = (==_iff (length vs) n).0 right in
      rw right (subst (λ k. Complete d k (of_dimension d vs)) e (of_dimension-Complete d vs))
  | inr wrong ↦ rw wrong tt
]

All-append : {A : Type 0} (P : A → Type 0) (xs ys : List A) → All P xs → All P ys → All P (xs ++ ys)
All-append P [] ys h k = k
All-append P (x ∷ xs) ys h k = (h.0, All-append P xs ys h.1 k)

and_rest-Complete :
    (d n m : ℕ) (r s : Embedded)
    → Complete d n r
    → Complete d m s
    → Complete d (n + m) (and_rest r s)
and_rest-Complete d n m (thrown e) s h k = tt
and_rest-Complete d n m (embedded vs) (thrown e) h k = tt
and_rest-Complete d n m (embedded vs) (embedded ws) h k =
    (omega (arith, length-append vs ws, h.0, k.0), All-append _ vs ws h.1 k.1)

module _ {T : Type 0} (provider : ℕ → List T → Reply) (st : Settings) where
  loop-Complete :
      (n i : ℕ) (texts : List T)
      → 1 ≤ st.batch_size
      → length texts ≤ n
      → Complete st.expected_dimension (length texts) (loop provider st n i texts)
  unfolding loop
  loop-Complete zero i [] size enough = (refl, tt)
  loop-Complete zero i (t ∷ texts) size enough = absurd (ground arith)
  loop-Complete (suc n) i [] size enough = (refl, tt)
  loop-Complete (suc n) i (t ∷ texts) size enough =
      let batch = take st.batch_size (t ∷ texts) in
      let later = drop st.batch_size (t ∷ texts) in
      let k = length-take st.batch_size (t ∷ texts) in
      let l = length-drop st.batch_size (t ∷ texts) in
      let here = accepted-Complete st.expected_dimension (length batch) (provider i batch) in
      let rest = loop-Complete n (i + 1) later size (ground (arith, l)) in
      let e : length batch + length later ≡ suc (length texts) = ground (arith, k, l) in
      subst (λ m. Complete st.expected_dimension m (loop provider st (suc n) i (t ∷ texts))) e
        (and_rest-Complete st.expected_dimension (length batch) (length later) _ _ here rest)

  -- Where a batch has room for a text, a call that does not throw gives one vector for each text, each
  -- of the expected dimension, whatever the provider answers.
  pub generate_embeddings-Complete :
      (texts : List T)
      → 1 ≤ st.batch_size
      → Complete st.expected_dimension (length texts) (generate_embeddings provider st texts)
  unfolding generate_embeddings
  generate_embeddings-Complete texts size = loop-Complete (length texts) 0 texts size (omega arith)

-- A provider that embeds each text by itself, into vectors of one dimension.
abbrev pub each_text : {T : Type 0} → (T → Vector) → ℕ → List T → Reply
each_text embed i batch = replied (map (λ t. some (embed t)) batch)

length-map : {A B : Type 0} (f : A → B) (xs : List A) → length (map f xs) ≡ length xs
length-map f [] = refl
length-map f (x ∷ xs) = ap suc (length-map f xs)

map-append : {A B : Type 0} (f : A → B) (xs ys : List A) → map f (xs ++ ys) ≡ map f xs ++ map f ys
map-append f [] ys = refl
map-append f (x ∷ xs) ys = ap (λ r. f x ∷ r) (map-append f xs ys)

module _ {T : Type 0} (embed : T → Vector) (st : Settings)
    (dimension : (t : T) → length (embed t) ≡ st.expected_dimension) where
  of_dimension-each :
      (ts : List T)
      → of_dimension st.expected_dimension (map (λ t. some (embed t)) ts) ≡ embedded (map embed ts)
  of_dimension-each [] = refl
  of_dimension-each (t ∷ ts) =
      rw ((==_iff (length (embed t)) st.expected_dimension).1 (dimension t), of_dimension-each ts)
        refl

  accepted-each :
      (i : ℕ) (ts : List T)
      → accepted st.expected_dimension (length ts) (each_text embed i ts) ≡ embedded (map embed ts)
  accepted-each i ts =
      let n = length-map (λ t. some (embed t)) ts in
      rw ((==_iff (length (map (λ t. some (embed t)) ts)) (length ts)).1 n) (of_dimension-each ts)

  loop-each :
      (n i : ℕ) (texts : List T)
      → 1 ≤ st.batch_size
      → length texts ≤ n
      → loop (each_text embed) st n i texts ≡ embedded (map embed texts)
  unfolding loop
  loop-each zero i [] size enough = refl
  loop-each zero i (t ∷ texts) size enough = absurd (ground arith)
  loop-each (suc n) i [] size enough = refl
  loop-each (suc n) i (t ∷ texts) size enough =
      let batch = take st.batch_size (t ∷ texts) in
      let later = drop st.batch_size (t ∷ texts) in
      let l = length-drop st.batch_size (t ∷ texts) in
      let rest = loop-each n (i + 1) later size (ground (arith, l)) in
      rw (accepted-each i batch, rest)
        (ap embedded (
          sym (map-append embed batch later)
          ∙ ap (map embed) (take-append-drop st.batch_size (t ∷ texts))))

  -- Where a batch has room for a text and the provider embeds each text by itself, into a vector of
  -- the expected dimension, the call gives those vectors in the order of the texts, whatever the size
  -- of the batches is.
  pub generate_embeddings-each :
      (texts : List T)
      → 1 ≤ st.batch_size
      → generate_embeddings (each_text embed) st texts ≡ embedded (map embed texts)
  unfolding generate_embeddings
  generate_embeddings-each texts size = loop-each (length texts) 0 texts size (omega arith)
