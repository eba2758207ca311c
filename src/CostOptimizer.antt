-- ===== src/CostOptimizer.antt =====
-- services/cost-optimizer.service.js: the cache of embeddings in memory and in Redis, and the
-- compression of a context; services/model-router.service.js. The hash and lower case are parameters;
-- the other columns of a chunk are left out.
mod Tests
use doc_query.Base.{
  ℕ, ◌≡◌, ◌≤◌, refl, ◌+◌, ◌/◌, ◌==◌, ◌||◌, ◌&&◌, not, ltb, leb, leb→le, Bool, true, false,
  Bool-cases, inl, inr, Option, none, some, List, [], ◌∷◌, ◌++◌, length, drop, first, keep, arith,
  if◌then◌else◌, length-append, length-drop, length-keep,
}
use doc_query.Redis.{Client, redis_get, redis_set}
use doc_query.Text.{codes, text_eq, includes, is_space, join, trim}

-- `Map` of hashes to vectors, oldest key first.
abbrev pub Memory : Type 0 → Type 0
Memory V = List (List ℕ × V)

module _ {V : Type 0} where
  abbrev pub has_key : List ℕ → List ℕ × V → Bool
  has_key k e = text_eq e.0 k

  abbrev pub replaced : List ℕ → V → Memory V → Memory V
  replaced k v [] = []
  replaced k v (e ∷ m) = (if has_key k e then (k, v) else e) ∷ replaced k v m

  -- `Map.set`: a key that is there keeps its place.
  abbrev pub memory_set : List ℕ → V → Memory V → Memory V
  memory_set k v m = elim (first (has_key k) m) [
    | none ↦ m ++ (k, v) ∷ []
    | some e ↦ replaced k v m
  ]

  -- The bound of `cacheEmbedding`.
  abbrev pub bounded : Memory V → Memory V
  bounded m = if ltb 5000 (length m) then drop 1 m else m

  module _ {C : Type 0} (sha256 : List ℕ → List ℕ) (client : Client C V) where
    abbrev pub hash_text : List ℕ → List ℕ
    hash_text s = sha256 (trim s)

    abbrev pub embedding_key : List ℕ → List ℕ
    embedding_key hash = codes "emb:" ++ hash

    abbrev remembered : List ℕ → Option V → Memory V → Option V × Memory V
    remembered hash none m = (none, m)
    remembered hash (some v) m = (some v, memory_set hash v m)

    -- `getCachedEmbedding`
    pub get_cached_embedding : List ℕ → Memory V → C → Option V × Memory V
    get_cached_embedding s m c = elim (first (has_key (hash_text s)) m) [
      | some e ↦ (some e.1, m)
      | none ↦ remembered (hash_text s) (redis_get client (embedding_key (hash_text s)) c) m
    ]

    -- `cacheEmbedding`
    pub cache_embedding : List ℕ → V → ℕ → Memory V → C → Memory V × C
    cache_embedding s v ttl m c = (
      bounded (memory_set (hash_text s) v m),
      (redis_set client (embedding_key (hash_text s)) v ttl c).1,
    )

abbrev is_mark : ℕ → Bool
is_mark c = (c == 46) || (c == 63) || (c == 33)

-- `split(/(?<=[.?!])\s+/)`: after a mark, a run of white space ends the sentence. `ended` says that
-- the last unit is a mark, `between` that the run goes on.
unfoldable pub sentences_from : List ℕ → Bool → Bool → List ℕ → List (List ℕ)
sentences_from cur ended between [] = cur ∷ []
sentences_from cur ended between (c ∷ s) =
    let skipped = sentences_from cur false true s in
    let cut = cur ∷ sentences_from [] false true s in
    let longer = sentences_from (cur ++ c ∷ []) (is_mark c) false s in
    if between && is_space c then skipped else if ended && is_space c then cut else longer

abbrev is_filled : List ℕ → Bool
is_filled [] = false
is_filled (c ∷ s) = true

abbrev trimmed : List (List ℕ) → List (List ℕ)
trimmed [] = []
trimmed (s ∷ ss) = trim s ∷ trimmed ss

abbrev pub sentences : List ℕ → List (List ℕ)
unfolding sentences_from
sentences content = keep is_filled (trimmed (sentences_from [] false false content))

module _ (to_lower : List ℕ → List ℕ) where
  -- The sentences that were not seen, and those that are seen then.
  abbrev pub unseen : List (List ℕ) → List (List ℕ) → List (List ℕ) × List (List ℕ)
  unseen seen [] = ([], seen)
  unseen seen (s ∷ ss) =
      let old = unseen seen ss in
      let new = unseen (to_lower s ∷ seen) ss in
      if includes seen (to_lower s) then old else (s ∷ new.0, new.1)

  abbrev pub tokens_of : List ℕ → ℕ
  tokens_of s = (length s + 3) / 4

  -- The loop over the chunks; what is seen stays seen where a chunk does not fit.
  unfoldable pub compress : ℕ → List (List ℕ) → ℕ → List (List ℕ) → List (List ℕ)
  compress max_tokens seen used [] = []
  compress max_tokens seen used (c ∷ cs) =
      let (fresh, seen') = unseen seen (sentences c) in
      let content = join fresh in
      let kept = content ∷ compress max_tokens seen' (used + tokens_of content) cs in
      let dropped = compress max_tokens seen' used cs in
      if leb (used + tokens_of content) max_tokens then kept else dropped

  -- `compressContext`
  unfoldable pub compress_context : List (List ℕ) → ℕ → List (List ℕ)
  unfolding compress
  compress_context chunks max_tokens = compress max_tokens [] 0 chunks

  abbrev pub total_tokens : List (List ℕ) → ℕ
  total_tokens [] = 0
  total_tokens (c ∷ cs) = tokens_of c + total_tokens cs

  compress-budget :
      (m : ℕ) (seen : List (List ℕ)) (used : ℕ) (cs : List (List ℕ))
      → used ≤ m
      → used + total_tokens (compress m seen used cs) ≤ m
  unfolding compress
  compress-budget m seen used [] h = omega (arith, h)
  compress-budget m seen used (c ∷ cs) h =
      let found = unseen seen (sentences c) in
      let n = tokens_of (join found.0) in
      elim (Bool-cases (leb (used + n) m)) [
        | inl fits ↦
            let rest = compress-budget m found.1 (used + n) cs (leb→le (used + n) m fits) in
            rw fits (omega (arith, rest))
        | inr full ↦ rw full (compress-budget m found.1 used cs h)
      ]

  -- The compressed chunks fit into the budget of tokens.
  pub compress_context-budget :
      (chunks : List (List ℕ)) (m : ℕ) → total_tokens (compress_context chunks m) ≤ m
  unfolding compress_context
  compress_context-budget chunks m = omega (arith, compress-budget m [] 0 chunks (omega arith))

-- The tiers of model-router.service.js, by the intent, the tokens of the context and the query.
pub data Intent : Type 0 where
  factual summarization comparison procedural : Intent

abbrev pub is_complex : Intent → ℕ → List ℕ → Bool
is_complex comparison tokens query = true
is_complex summarization tokens query = true
is_complex _ tokens query = ltb 2000 tokens || ltb 200 (length query)

-- `route`: the tier and the model.
abbrev pub route : List ℕ → Intent → ℕ → List ℕ × List ℕ
route query intent tokens =
    if is_complex intent tokens query
    then (codes "ADVANCED", codes "gpt-4o")
    else (codes "FAST", codes "gpt-4o-mini")
