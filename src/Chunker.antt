-- ===== src/Chunker.antt =====
-- modules/documents/services/chunker.service.js: a text is cut into windows of words that overlap.
-- Sizes are the integers that the service demands; `n * 0.75` is exact in binary floating point,
-- and `Math.ceil(n * 1.3)` is the exact ceiling for every count of words below 2 ^ 52.
pub mod Coverage
pub mod Indices
pub mod Pages
mod Tests
use doc_query.Base.{
  ℕ, zero, suc, ◌+◌, ◌-◌, ◌*◌, ◌/◌, max, Bool, ◌&&◌, ltb, leb, ◌==◌, Option, none, some, List, [],
  ◌∷◌, ◌++◌, length, take, drop, if◌then◌else◌,
}
use doc_query.Text.{words, join}

pub record Metadata : Type 0 where
  pub token_count : ℕ
  pub word_count : ℕ
  pub character_count : ℕ

pub record Chunk : Type 0 where
  pub content : List ℕ
  pub chunk_index : ℕ
  pub page_number : ℕ
  pub metadata : Metadata

-- The fields that the constructor sets.
pub record Chunker : Type 0 where
  pub chunk_size : ℕ
  pub chunk_overlap : ℕ

pub data ConfigError : Type 0 where
  invalid_chunk_size invalid_configuration : ConfigError

-- `validateConfig`, as the error that it throws. A natural number is never negative.
pub validate_config : ℕ → ℕ → Option ConfigError
validate_config size overlap =
    if size == 0
    then some invalid_chunk_size
    else if leb size overlap
    then some invalid_configuration
    else none

unfoldable pub estimate_tokens : List ℕ → ℕ
estimate_tokens [] = 0
estimate_tokens (c ∷ text) = max 1 ((13 * length (words (c ∷ text)) + 9) / 10)

abbrev pub words_per_chunk : Chunker → ℕ
words_per_chunk c = max 1 (c.chunk_size * 3 / 4)

abbrev pub words_overlap : Chunker → ℕ
words_overlap c = c.chunk_overlap * 3 / 4

-- `Math.max(1, wordsPerChunk - wordsOverlap)`: a negative difference gives 1 too.
abbrev pub step_size : Chunker → ℕ
step_size c = max 1 (words_per_chunk c - words_overlap c)

-- `pageNumber || 1`
abbrev pub page_or_one : Option ℕ → ℕ
page_or_one none = 1
page_or_one (some zero) = 1
page_or_one (some (suc n)) = suc n

unfoldable pub make_chunk : Option ℕ → ℕ → List (List ℕ) → Chunk
make_chunk page index ws = record {
  content = join ws;
  chunk_index = index;
  page_number = page_or_one page;
  metadata = record {
    token_count = estimate_tokens (join ws);
    word_count = length ws;
    character_count = length (join ws);
  };
}

-- The loop over the windows, from position `i`, as the words of each window. Each round moves on by
-- at least one word, so as many rounds as there are words are enough.
unfoldable pub windows : ℕ → ℕ → ℕ → ℕ → List (List ℕ) → List (List (List ℕ))
windows zero size step i ws = []
windows (suc fuel) size step i ws =
    let rest = windows fuel size step (i + step) ws in
    let window = take size (drop i ws) in
    if ltb i (length ws)
    then (elim window [
      | [] ↦ []
      | w ∷ more ↦ (w ∷ more) ∷ (if leb (length ws) (i + size) then [] else rest)
    ])
    else []

-- The chunks of successive windows, with `currentIndex++`.
unfoldable pub number_chunks : Option ℕ → ℕ → List (List (List ℕ)) → List Chunk
number_chunks page index [] = []
number_chunks page index (ws ∷ wss) = make_chunk page index ws ∷ number_chunks page (index + 1) wss

-- The windows of `chunkText`: one if everything fits, else those of the loop.
unfoldable pub text_windows : Chunker → List (List ℕ) → List (List (List ℕ))
unfolding windows
text_windows c [] = []
text_windows c (w ∷ ws) =
    if leb (length (w ∷ ws)) (words_per_chunk c)
    then (w ∷ ws) ∷ []
    else windows (length (w ∷ ws)) (words_per_chunk c) (step_size c) 0 (w ∷ ws)

unfoldable pub chunk_text : Chunker → List ℕ → Option ℕ → ℕ → List Chunk
unfolding text_windows number_chunks
chunk_text c text page start = number_chunks page start (text_windows c (words text))

pub record Page : Type 0 where
  pub page_number : Option ℕ
  pub text : List ℕ

-- `chunk.chunkIndex = globalIndex++` over one page's chunks.
pub renumber : ℕ → List Chunk → List Chunk
renumber index [] = []
renumber index (c ∷ cs) = record c { chunk_index = index } ∷ renumber (index + 1) cs

-- The loop over the pages. A page of white space gives no words, and is skipped.
pub chunk_pages : Chunker → ℕ → List Page → List Chunk
unfolding chunk_text renumber
chunk_pages c index [] = []
chunk_pages c index (p ∷ ps) =
    let skipped = chunk_pages c index ps in
    let chunks = renumber index (chunk_text c p.text p.page_number index) in
    let more = chunks ++ chunk_pages c (index + length chunks) ps in
    elim (words p.text) [ [] ↦ skipped | _ ∷ _ ↦ more ]

-- `if (allChunks.length > 0) return allChunks;`
abbrev pub unless_empty : List Chunk → List Chunk → List Chunk
unless_empty [] fallback = fallback
unless_empty (k ∷ ks) fallback = k ∷ ks

-- `chunkDocument`: by page, and the whole text where that gives nothing.
unfoldable pub chunk_document : Chunker → List ℕ → List Page → List Chunk
unfolding chunk_pages chunk_text
chunk_document c text pages = unless_empty (chunk_pages c 0 pages) (chunk_text c text (some 1) 0)
