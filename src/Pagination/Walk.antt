-- ===== src/Pagination/Walk.antt =====
-- Following the cursor from page to page (utils/pagination.js, `buildCursorPagination`).
use doc_query.Base.{
  ℕ, zero, suc, ◌≡◌, refl, ◌∙◌, ap, sym, ◌≤◌, ◌<◌, Bool, true, false, ltb, ltb→lt, Bool-cases, inl,
  inr, Option, none, some, List, [], ◌∷◌, ◌++◌, length, take, drop, length-take, length-drop,
  take-append-drop, arith, if◌then◌else◌,
}
use mathlib.Core.List.{append_assoc}
use doc_query.Pagination.{
  CursorPage, last_cursor, build_cursor_pagination, build_cursor_pagination-page,
}

-- A client that asks for page after page, as long as there is a cursor, up to a number of pages.
abbrev pub walk : {A C : Type 0} → (Option C → CursorPage A C) → ℕ → Option C → List A
walk ask zero c = []
walk ask (suc n) c = elim (ask c).next_cursor [
  | none ↦ (ask c).data_
  | some d ↦ (ask c).data_ ++ walk ask n (some d)
]

module _ {A C : Type 0} (encode : A → C) where
  last_cursor-snoc :
      (x : A) (xs : List A)
      → (p : List A) × (m : A) × (x ∷ xs ≡ p ++ m ∷ [])
        × (last_cursor encode (x ∷ xs) ≡ some (encode m))
  unfolding last_cursor
  last_cursor-snoc x [] = ([], x, refl, refl)
  last_cursor-snoc x (y ∷ xs) =
      let r = last_cursor-snoc y xs in (x ∷ r.0, r.1, ap (λ t. x ∷ t) r.2, r.3)

  last_of_page :
      (limit : ℕ) (rest : List A)
      → 1 ≤ limit
      → ltb limit (length rest) ≡ true
      → (p : List A) × (m : A) × (take limit rest ≡ p ++ m ∷ [])
        × (last_cursor encode (take limit rest) ≡ some (encode m))
  last_of_page zero rest h k = absurd (ground arith)
  last_of_page (suc n) [] h k = absurd (ground arith)
  last_of_page (suc n) (x ∷ rest) h k = last_cursor-snoc x (take n rest)

  take-all : (n : ℕ) (xs : List A) → ltb n (length xs) ≡ false → take n xs ≡ xs
  take-all zero [] h = refl
  take-all zero (x ∷ xs) h = absurd (ground arith)
  take-all (suc n) [] h = refl
  take-all (suc n) (x ∷ xs) h = ap (λ t. x ∷ t) (take-all n xs (ground arith))

  next-none :
      (limit : ℕ) (rest : List A)
      → ltb limit (length rest) ≡ false
      → (build_cursor_pagination encode (take (suc limit) rest) limit).next_cursor ≡ none
  unfolding build_cursor_pagination
  next-none limit rest h = ground (arith, h, length-take (suc limit) rest)

  next-last :
      (limit : ℕ) (rest : List A)
      → ltb limit (length rest) ≡ true
      → (build_cursor_pagination encode (take (suc limit) rest) limit).next_cursor
        ≡ last_cursor encode (take limit rest)
  unfolding build_cursor_pagination
  next-last limit rest h =
      let more : ltb limit (length (take (suc limit) rest)) ≡ true =
        ground (arith, h, length-take (suc limit) rest) in
      chosen _ _ more ∙ ap (last_cursor encode) (build_cursor_pagination-page encode limit rest).0
    where
      chosen : (b : Bool) (o : Option C) → b ≡ true → (if b then o else none) ≡ o
      chosen b o e = rw e refl

  walk-end :
      (ask : Option C → CursorPage A C) (n : ℕ) (c : Option C)
      → (ask c).next_cursor ≡ none
      → walk ask (suc n) c ≡ (ask c).data_
  walk-end ask n c h = ground (arith, h)

  walk-on :
      (ask : Option C → CursorPage A C) (n : ℕ) (c : Option C) (d : C)
      → (ask c).next_cursor ≡ some d
      → walk ask (suc n) c ≡ (ask c).data_ ++ walk ask n (some d)
  walk-on ask n c d h = ground (arith, h)

  module _ (limit : ℕ) (rows : List A) (ask : Option C → CursorPage A C)
      (ask_from : (pre post : List A) (m : A)
        → pre ++ m ∷ post ≡ rows
        → ask (some (encode m)) ≡ build_cursor_pagination encode (take (suc limit) post) limit)
      (positive : 1 ≤ limit) where
    walk-rest :
        (n : ℕ) (pre rest : List A) (c : Option C)
        → ask c ≡ build_cursor_pagination encode (take (suc limit) rest) limit
        → pre ++ rest ≡ rows
        → length rest < n
        → walk ask n c ≡ rest
    walk-rest zero pre rest c h split fuel = absurd (ground arith)
    walk-rest (suc n) pre rest c h split fuel =
        let data_of : (ask c).data_ ≡ take limit rest =
          ap (λ (p : CursorPage A C). p.data_) h
          ∙ (build_cursor_pagination-page encode limit rest).0 in
        let next_of = ap (λ (p : CursorPage A C). p.next_cursor) h in
        elim (Bool-cases (ltb limit (length rest))) [
          | inl more ↦
              let (p, m, cut, last) = last_of_page limit rest positive more in
              let whole : (p ++ m ∷ []) ++ drop limit rest ≡ rest =
                ap (λ r. r ++ drop limit rest) (sym cut) ∙ take-append-drop limit rest in
              let joined : (pre ++ p) ++ m ∷ drop limit rest ≡ rows =
                append_assoc pre p (m ∷ drop limit rest)
                ∙ ap (λ r. pre ++ r) (sym (append_assoc p (m ∷ []) (drop limit rest)) ∙ whole)
                ∙ split in
              let follow : walk ask n (some (encode m)) ≡ drop limit rest =
                walk-rest n ((pre ++ p) ++ m ∷ []) (drop limit rest) (some (encode m))
                  (ask_from (pre ++ p) (drop limit rest) m joined)
                  (append_assoc (pre ++ p) (m ∷ []) (drop limit rest) ∙ joined)
                  (omega (
                    arith,
                    length-drop limit rest,
                    ltb→lt limit (length rest) more,
                    positive,
                    fuel,
                  )) in
              walk-on ask n c (encode m) (next_of ∙ next-last limit rest more ∙ last)
              ∙ ap (λ d. d ++ walk ask n (some (encode m))) data_of
              ∙ ap (λ d. take limit rest ++ d) follow
              ∙ take-append-drop limit rest
          | inr last ↦
              walk-end ask n c (next_of ∙ next-none limit rest last)
              ∙ data_of
              ∙ take-all limit rest last
        ]

    -- With more pages allowed than there are rows, the client gets every row once, in order.
    pub walk_complete :
        (n : ℕ)
        → ask none ≡ build_cursor_pagination encode (take (suc limit) rows) limit
        → length rows < n
        → walk ask n none ≡ rows
    walk_complete n h fuel = walk-rest n [] rows none h refl fuel
