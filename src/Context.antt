-- ===== src/Context.antt =====
-- modules/query/services/context-selector.service.js: which of the ranked chunks go to the language
-- model. A document or chunk identifier may be missing; scores and metadata, which are passed on
-- unread, are numbers that stand for them; lower case is a parameter (of the platform).
pub mod Rounds
pub mod Budget
pub mod Repeats
pub mod Sources
mod Tests
use doc_query.Base.{
  ℕ, Bool, true, false, not, ◌&&◌, ◌||◌, ◌==◌, ◌+◌, ◌/◌, leb, ltb, Option, none, some, List, [],
  ◌∷◌, ◌++◌, length, take, drop, any, contains, or_else, if◌then◌else◌,
}
use doc_query.Text.{includes, trim}

pub record Candidate : Type 0 where
  pub chunk_id : Option ℕ
  pub document_id : Option ℕ
  pub content : List ℕ
  pub score : ℕ
  pub vector_score : Option ℕ
  pub page_number : Option ℕ
  pub chunk_index : ℕ
  pub metadata : ℕ

-- `options.maxChunks || …`: the first setting that is not 0.
abbrev pub first_set : List ℕ → ℕ → ℕ
first_set [] d = d
first_set (n ∷ ns) d = if n == 0 then first_set ns d else n

-- `docCounts`, with the newest entry first; a missing document is `unknown`.
abbrev same_document : Option ℕ → Option ℕ → Bool
same_document none none = true
same_document (some a) (some b) = a == b
same_document _ _ = false

abbrev pub Counts : Type 0
Counts = List (Option ℕ × ℕ)

unfoldable pub count_of : Option ℕ → Counts → ℕ
count_of d [] = 0
count_of d ((e, n) ∷ rest) = let later = count_of d rest in if same_document e d then n else later

-- What the loop keeps.
pub record Selection : Type 0 where
  pub selected : List Candidate
  pub seen_ids : List ℕ
  pub seen_contents : List (List ℕ)
  pub doc_counts : Counts
  pub tokens : ℕ
  pub truncated : Bool

abbrev pub nothing : Selection
nothing = record {
  selected = [];
  seen_ids = [];
  seen_contents = [];
  doc_counts = [];
  tokens = 0;
  truncated = false;
}

abbrev pub chunk_tokens : Candidate → ℕ
chunk_tokens c = (length c.content + 3) / 4 + 20

abbrev pub is_seen : List ℕ → Option ℕ → Bool
is_seen ids none = false
is_seen ids (some id) = contains ids id

abbrev add_id : Option ℕ → List ℕ → List ℕ
add_id none ids = ids
add_id (some id) ids = ids ++ id ∷ []

abbrev pub is_empty : List ℕ → Bool
is_empty [] = true
is_empty (c ∷ s) = false

-- What is pushed: `vectorScore ?? score`.
abbrev pub pushed : Candidate → Candidate
pushed c = record c { vector_score = some (or_else c.vector_score c.score) }

-- `c.documentId && c.documentId !== docId && !seenChunkIds.has(c.chunkId)`
abbrev pub is_waiting : Option ℕ → List ℕ → Candidate → Bool
is_waiting doc ids c = elim c.document_id [
  | none ↦ false
  | some d ↦ not (same_document (some d) doc) && not (is_seen ids c.chunk_id)
]

-- `break`, `continue` or the adding of the candidate.
pub data Verdict : Type 0 where
  full skip admit : Verdict

-- How a round of the loop ends: `break` or the next candidate.
pub data Round : Type 0 where
  stop next : Selection → Round

module _ (to_lower : List ℕ → List ℕ) (max_chunks max_tokens : ℕ) (ranked : List Candidate) where
  abbrev pub snippet : Candidate → List ℕ
  snippet c = take 150 (to_lower (trim c.content))

  -- The diversity check.
  unfoldable pub gives_way : Selection → Candidate → Bool
  unfolding count_of
  gives_way acc c =
      leb 3 (count_of c.document_id acc.doc_counts)
      && ltb 5 (length ranked)
      && any (is_waiting c.document_id acc.seen_ids) (drop (length acc.selected) ranked)

  abbrev pub add_chunk : Selection → Candidate → Selection
  add_chunk acc c = record acc {
    selected = acc.selected ++ pushed c ∷ [];
    seen_ids = add_id c.chunk_id acc.seen_ids;
    seen_contents = acc.seen_contents ++ snippet c ∷ [];
    doc_counts = (c.document_id, count_of c.document_id acc.doc_counts + 1) ∷ acc.doc_counts;
    tokens = acc.tokens + chunk_tokens c;
  }

  abbrev pub cut : Selection → Selection
  cut acc = record acc { truncated = true }

  -- The tests of a round, in their order.
  unfoldable pub verdict : Selection → Candidate → Verdict
  unfolding gives_way count_of
  verdict acc c =
      if leb max_chunks (length acc.selected)
      then full
      else if is_empty c.content
      then skip
      else if is_seen acc.seen_ids c.chunk_id
      then skip
      else if includes acc.seen_contents (snippet c)
      then skip
      else if ltb 0 (length acc.selected) && ltb max_tokens (acc.tokens + chunk_tokens c)
      then full
      else if gives_way acc c
      then skip
      else admit

  unfoldable pub consider : Selection → Candidate → Round
  unfolding verdict
  consider acc c = elim (verdict acc c) [
    | full ↦ stop (cut acc)
    | skip ↦ next acc
    | admit ↦ next (add_chunk acc c)
  ]

  unfoldable pub select_loop : Selection → List Candidate → Selection
  unfolding consider
  select_loop acc [] = acc
  select_loop acc (c ∷ cs) = elim (consider acc c) [ stop a ↦ a | next a ↦ select_loop a cs ]

-- `selectContext`, with the settings of the options, the environment and the configuration.
unfoldable pub select_context : (List ℕ → List ℕ) → List ℕ → List ℕ → List Candidate → Selection
unfolding select_loop
select_context to_lower chunk_settings token_settings ranked =
    select_loop to_lower (first_set chunk_settings 6) (first_set token_settings 4000) ranked nothing
      ranked
