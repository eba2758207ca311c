-- ===== src/Chunker/Coverage.antt =====
-- No word is lost: the windows of a text, put together again, are its words
-- (modules/documents/services/chunker.service.js, the sliding window of `chunkText`).
use doc_query.Base.{
  ℕ, zero, suc, ◌+◌, ◌≤◌, ◌<◌, ◌≡◌, ◌≢◌, refl, sym, ap, ◌∙◌, leb, leb→le, List, [], ◌∷◌, ◌++◌,
  length, take, drop, length-take, length-drop, take-append-drop, arith, Bool-cases, inl, inr,
}
use doc_query.Chunker.{Chunker, words_per_chunk, step_size, windows, text_windows}

module _ {ℓ} {A : Type ℓ} where
  -- What the windows stand for: of each but the last its first `step` items, and the last whole.
  abbrev pub reassemble : ℕ → List (List A) → List A
  reassemble step [] = []
  reassemble step (w ∷ []) = w
  reassemble step (w ∷ v ∷ ws) = take step w ++ reassemble step (v ∷ ws)

  reassemble-cons :
      (step : ℕ) (w : List A) (ws : List (List A))
      → reassemble step ws ≢ []
      → reassemble step (w ∷ ws) ≡ take step w ++ reassemble step ws
  reassemble-cons step w [] h = absurd (h refl)
  reassemble-cons step w (v ∷ ws) h = refl

  drop_nil : (n : ℕ) → drop {A = A} n [] ≡ []
  drop_nil zero = refl
  drop_nil (suc n) = refl

  drop-drop : (m n : ℕ) (xs : List A) → drop n (drop m xs) ≡ drop (m + n) xs
  drop-drop zero n xs = ground arith
  drop-drop (suc m) n [] = rw (drop_nil n, drop_nil (suc m + n))
  drop-drop (suc m) n (x ∷ xs) =
      let e : suc m + n ≡ suc (m + n) = omega arith in rw e (drop-drop m n xs)

  take-take : (m n : ℕ) (xs : List A) → m ≤ n → take m (take n xs) ≡ take m xs
  take-take zero n xs h = refl
  take-take (suc m) zero xs h = absurd (omega arith)
  take-take (suc m) (suc n) [] h = refl
  take-take (suc m) (suc n) (x ∷ xs) h = ap (λ r. x ∷ r) (take-take m n xs (omega arith))

  pub take_all : (n : ℕ) (xs : List A) → length xs ≤ n → take n xs ≡ xs
  take_all zero [] h = refl
  take_all zero (x ∷ xs) h = absurd (omega arith)
  take_all (suc n) [] h = refl
  take_all (suc n) (x ∷ xs) h = ap (λ r. x ∷ r) (take_all n xs (omega arith))

module _ (size step : ℕ) where
  pub windows_last :
      (fuel i : ℕ) (ws : List (List ℕ))
      → i < length ws
      → length ws ≤ i + size
      → 1 ≤ size
      → windows (suc fuel) size step i ws ≡ take size (drop i ws) ∷ []
  unfolding windows
  windows_last fuel i ws h k s = ground (arith, length-take size (drop i ws), length-drop i ws)

  pub windows_more :
      (fuel i : ℕ) (ws : List (List ℕ))
      → i + size < length ws
      → 1 ≤ size
      → windows (suc fuel) size step i ws
        ≡ take size (drop i ws) ∷ windows fuel size step (i + step) ws
  unfolding windows
  windows_more fuel i ws h s = ground (arith, length-take size (drop i ws), length-drop i ws)

  windows-reassemble_step :
      (fuel i : ℕ) (ws : List (List ℕ))
      → i + size < length ws
      → 1 ≤ step
      → step ≤ size
      → reassemble step (windows fuel size step (i + step) ws) ≢ []
      → reassemble step (windows fuel size step (i + step) ws) ≡ drop (i + step) ws
      → reassemble step (windows (suc fuel) size step i ws) ≡ drop i ws
  windows-reassemble_step fuel i ws short one fits left ih =
      rw (windows_more fuel i ws short (omega arith)) (
        reassemble-cons step (take size (drop i ws)) _ left
        ∙ rw (ih, take-take step size (drop i ws) fits, ← drop-drop i step ws)
            (take-append-drop step (drop i ws)))

  windows-reassemble :
      (fuel i : ℕ) (ws : List (List ℕ))
      → 1 ≤ step
      → step ≤ size
      → length ws ≤ i + fuel
      → i < length ws
      → reassemble step (windows fuel size step i ws) ≡ drop i ws
  windows-reassemble zero i ws one fits enough h = absurd (omega arith)
  windows-reassemble (suc fuel) i ws one fits enough h =
      elim (Bool-cases (leb (length ws) (i + size))) [
        | inl last ↦
            rw (windows_last fuel i ws h (ground arith) (omega arith))
              (take_all size (drop i ws) (omega (arith, length-drop i ws, leb→le _ _ last)))
        | inr more ↦
            let short : i + size < length ws = ground arith in
            let ih = windows-reassemble fuel (i + step) ws one fits (omega arith) (omega arith) in
            let left : reassemble step (windows fuel size step (i + step) ws) ≢ [] =
              λ e. absurd (omega (arith, ap length (sym ih ∙ e), length-drop (i + step) ws)) in
            windows-reassemble_step fuel i ws short one fits left ih
      ]

-- The words of a text come back from its windows, whatever the sizes: the first `step` words of each window but the last, and the last window whole, are all the words, in
-- order, each once. In particular the loop is never cut off before the last word.
pub text_windows-reassemble :
    (c : Chunker) (ws : List (List ℕ)) → reassemble (step_size c) (text_windows c ws) ≡ ws
unfolding text_windows
text_windows-reassemble c [] = refl
text_windows-reassemble c (w ∷ ws) = elim (Bool-cases (leb (length (w ∷ ws)) (words_per_chunk c))) [
  | inl fits ↦ rw fits
  | inr long ↦ rw long (
      windows-reassemble (words_per_chunk c) (step_size c) (length (w ∷ ws)) 0 (w ∷ ws)
        (omega arith) (omega arith) (omega arith) (omega arith))
]
