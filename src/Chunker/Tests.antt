-- ===== src/Chunker/Tests.antt =====
-- Runs of the chunker on short texts, and the theorems about it at such inputs.
use Prim.Native.Char.{code}
use Prim.Native.String.{String}
use doc_query.Base.{ℕ, ◌≡◌, refl, some, none, List, [], ◌∷◌, map, All}
use doc_query.Text.{words, is_space}
use doc_query.Chunker.{
  Chunker, Chunk, Page, step_size, text_windows, chunk_text, chunk_document, validate_config,
  ConfigError, make_chunk,
}
use doc_query.Chunker.Coverage.{reassemble, text_windows-reassemble}
use doc_query.Chunker.Indices.{IsSound, chunk_text-IsSound}

abbrev codes : String → List ℕ
codes String.[] = []
codes (String.◌∷◌ c s) = code c ∷ codes s

-- Three words to a chunk, with one shared: a step of two.
abbrev small : Chunker
small = record { chunk_size = 4; chunk_overlap = 2 }

abbrev text : List ℕ
text = codes " the quick  brown fox jumps over "

chunk_text_run :
    map (λ (k : Chunk). k.content) (chunk_text small text (some 2) 5)
    ≡ codes "the quick brown" ∷ codes "brown fox jumps" ∷ codes "jumps over" ∷ []
unfolding chunk_text make_chunk words is_space
chunk_text_run = refl

validate_config_run :
    (validate_config 0 0 ≡ some ConfigError.invalid_chunk_size)
    × (validate_config 4 4 ≡ some ConfigError.invalid_configuration)
    × (validate_config 1000 150 ≡ none)
unfolding validate_config
validate_config_run = (refl, refl, refl)

text_windows-reassemble_example :
    reassemble (step_size small) (text_windows small (words text)) ≡ words text
text_windows-reassemble_example = text_windows-reassemble small (words text)

chunk_text-IsSound_example : All (IsSound small (some 2)) (chunk_text small text (some 2) 5)
chunk_text-IsSound_example = chunk_text-IsSound small text (some 2) 5

abbrev pages : List Page
pages =
    record { page_number = some 1; text = text }
    ∷ record { page_number = some 2; text = codes "  " }
    ∷ record { page_number = none; text = codes "and out" }
    ∷ []

chunk_document_run :
    map {B = ℕ × ℕ}
      (λ (k : Chunk). (k.chunk_index, k.page_number))
      (chunk_document small text pages)
    ≡ (0, 1) ∷ (1, 1) ∷ (2, 1) ∷ (3, 1) ∷ []
unfolding chunk_document make_chunk words is_space
chunk_document_run = refl
