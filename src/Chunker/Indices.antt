-- ===== src/Chunker/Indices.antt =====
-- The chunks of one text (modules/documents/services/chunker.service.js, `chunkText`): their
-- numbers, their sizes and what their metadata says.
use doc_query.Base.{
  ℕ, zero, suc, ◌+◌, ◌*◌, ◌/◌, ◌≤◌, ◌≡◌, refl, ap, ltb, leb, leb→le, Option, List, [], ◌∷◌, map,
  length, take, drop, length-take, length-drop, All, arith, Bool-cases, subst, inl, inr,
}
use doc_query.Text.{words, join, IsWord, words-join, words-IsWord}
use doc_query.Chunker.Coverage.{windows_last, windows_more}
use doc_query.Chunker.{
  Chunker, Chunk, words_per_chunk, step_size, windows, text_windows, number_chunks, chunk_text,
  make_chunk, estimate_tokens, page_or_one,
}

-- `n`, `n + 1`, and so on.
abbrev pub count_up : ℕ → ℕ → List ℕ
count_up n zero = []
count_up n (suc k) = n ∷ count_up (n + 1) k

pub number_chunks-indices :
    (page : Option ℕ) (start : ℕ) (wss : List (List (List ℕ)))
    → map (λ (k : Chunk). k.chunk_index) (number_chunks page start wss)
      ≡ count_up start (length (number_chunks page start wss))
unfolding number_chunks make_chunk
number_chunks-indices page start [] = refl
number_chunks-indices page start (ws ∷ wss) =
    ap (λ r. start ∷ r) (number_chunks-indices page (start + 1) wss)

-- What a window may be: some words, at most `size` of them.
abbrev Fits : ℕ → List (List ℕ) → Type 0
Fits size ws = (1 ≤ length ws) × (length ws ≤ size) × All IsWord ws

All-take : (n : ℕ) (ws : List (List ℕ)) → All IsWord ws → All IsWord (take n ws)
All-take zero ws h = tt
All-take (suc n) [] h = tt
All-take (suc n) (w ∷ ws) h = (h.0, All-take n ws h.1)

All-drop : (n : ℕ) (ws : List (List ℕ)) → All IsWord ws → All IsWord (drop n ws)
All-drop zero ws h = h
All-drop (suc n) [] h = tt
All-drop (suc n) (w ∷ ws) h = All-drop n ws h.1

module _ (size step : ℕ) where
  windows-Fits :
      1 ≤ size
      → (fuel i : ℕ) (ws : List (List ℕ)) → All IsWord ws
      → All (Fits size) (windows fuel size step i ws)
  unfolding windows
  windows-Fits one zero i ws h = tt
  windows-Fits one (suc fuel) i ws h = elim (Bool-cases (ltb i (length ws))) [
    | inr stop ↦ rw stop tt
    | inl go_on ↦
        let fits : Fits size (take size (drop i ws)) = (
          ground (arith, length-take size (drop i ws), length-drop i ws),
          omega (arith, length-take size (drop i ws)),
          All-take size (drop i ws) (All-drop i ws h),
        ) in
        elim (Bool-cases (leb (length ws) (i + size))) [
          | inl last ↦
              rw (windows_last size step fuel i ws (ground arith) (leb→le _ _ last) one) (fits, tt)
          | inr more ↦
              rw (windows_more size step fuel i ws (ground arith) one)
                (fits, windows-Fits one fuel (i + step) ws h)
        ]
  ]

text_windows-Fits :
    (c : Chunker) (ws : List (List ℕ))
    → All IsWord ws
    → All (Fits (words_per_chunk c)) (text_windows c ws)
unfolding text_windows
text_windows-Fits c [] h = tt
text_windows-Fits c (w ∷ ws) h = elim (Bool-cases (leb (length (w ∷ ws)) (words_per_chunk c))) [
  | inl fits ↦ rw fits ((omega arith, leb→le _ _ fits, h), tt)
  | inr long ↦
      rw long (
        windows-Fits (words_per_chunk c) (step_size c) (omega arith) (length (w ∷ ws)) 0 (w ∷ ws) h)
]

-- What holds of each chunk of a text.
pub record IsSound (c : Chunker) (page : Option ℕ) (k : Chunk) : Type 0 where
  pub filled : 1 ≤ k.metadata.word_count
  pub bounded : k.metadata.word_count ≤ words_per_chunk c
  pub counted : length (words k.content) ≡ k.metadata.word_count
  pub measured : length k.content ≡ k.metadata.character_count
  pub estimated : k.metadata.token_count ≡ (13 * k.metadata.word_count + 9) / 10
  pub placed : k.page_number ≡ page_or_one page

estimate_tokens_lem :
    (text : List ℕ)
    → 1 ≤ length (words text)
    → estimate_tokens text ≡ (13 * length (words text) + 9) / 10
unfolding estimate_tokens words
estimate_tokens_lem [] h = absurd (omega arith)
estimate_tokens_lem (c ∷ text) h = omega arith

estimate_tokens-join :
    (ws : List (List ℕ))
    → All IsWord ws
    → 1 ≤ length ws
    → estimate_tokens (join ws) ≡ (13 * length ws + 9) / 10
estimate_tokens-join ws h one =
    subst (λ v. estimate_tokens (join ws) ≡ (13 * length v + 9) / 10) (words-join ws h)
      (estimate_tokens_lem (join ws) (rw (words-join ws h) one))

make_chunk-IsSound :
    (c : Chunker) (page : Option ℕ) (index : ℕ) (ws : List (List ℕ))
    → Fits (words_per_chunk c) ws
    → IsSound c page (make_chunk page index ws)
unfolding make_chunk
make_chunk-IsSound c page index ws (one, most, h) = record {
  filled = one;
  bounded = most;
  counted = ap length (words-join ws h);
  measured = refl;
  estimated = estimate_tokens-join ws h one;
  placed = refl;
}

number_chunks-IsSound :
    (c : Chunker) (page : Option ℕ) (start : ℕ) (wss : List (List (List ℕ)))
    → All (Fits (words_per_chunk c)) wss
    → All (IsSound c page) (number_chunks page start wss)
unfolding number_chunks
number_chunks-IsSound c page start [] h = tt
number_chunks-IsSound c page start (ws ∷ wss) h =
    (make_chunk-IsSound c page start ws h.0, number_chunks-IsSound c page (start + 1) wss h.1)

-- Every chunk of a text holds at least one word and at most the configured number of them; its
-- content reads back as that many words, its metadata counts its words, its characters and its
-- tokens, and it carries the page.
pub chunk_text-IsSound :
    (c : Chunker) (text : List ℕ) (page : Option ℕ) (start : ℕ)
    → All (IsSound c page) (chunk_text c text page start)
unfolding chunk_text
chunk_text-IsSound c text page start =
    number_chunks-IsSound c page start _ (text_windows-Fits c (words text) (words-IsWord text))
