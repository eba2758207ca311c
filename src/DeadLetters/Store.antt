-- ===== src/DeadLetters/Store.antt =====
-- The store against the history of the failures since it was last cleared (workers/dlq.service.js).
use doc_query.Base.{
  ℕ, zero, suc, ◌≡◌, ◌≤◌, refl, sym, ap, ◌∙◌, ◌-◌, ltb, ◌&&◌, Bool, Option, inl, inr, List, [], ◌∷◌,
  ◌++◌, length, take, drop, keep, arith, if◌then◌else◌, length-append, length-drop, Bool-cases,
}
use doc_query.DeadLetters.{
  Failed, Entry, max_entries, slice_last, shift, entry_of, capture_failure, clear, of_queue,
  of_organization, list_entries,
}
use mathlib.Core.List.{reverse, reverse-cons, append-nil}

module _ {A : Type 0} where
  drop-snoc :
      (k : ℕ) (xs : List A) (x : A) → k ≤ length xs → drop k (xs ++ x ∷ []) ≡ drop k xs ++ x ∷ []
  drop-snoc zero xs x h = refl
  drop-snoc (suc k) [] x h = ground arith
  drop-snoc (suc k) (y ∷ xs) x h = drop-snoc k xs x (ground arith)

  drop_one-drop : (k : ℕ) (xs : List A) → drop 1 (drop k xs) ≡ drop (suc k) xs
  drop_one-drop zero xs = refl
  drop_one-drop (suc k) [] = refl
  drop_one-drop (suc k) (x ∷ xs) = drop_one-drop k xs

  length-reverse : (xs : List A) → length (reverse xs) ≡ length xs
  length-reverse [] = refl
  length-reverse (x ∷ xs) =
      rw reverse-cons (omega (arith, length-append (reverse xs) (x ∷ []), length-reverse xs))

  take-snoc : (n : ℕ) (xs : List A) (x : A) → n ≤ length xs → take n (xs ++ x ∷ []) ≡ take n xs
  take-snoc zero xs x h = refl
  take-snoc (suc n) [] x h = ground arith
  take-snoc (suc n) (y ∷ xs) x h = ap (λ r. y ∷ r) (take-snoc n xs x (ground arith))

  take-whole : (n : ℕ) (xs : List A) → length xs ≤ n → take n xs ≡ xs
  take-whole zero [] h = refl
  take-whole zero (x ∷ xs) h = ground arith
  take-whole (suc n) [] h = refl
  take-whole (suc n) (x ∷ xs) h = ap (λ r. x ∷ r) (take-whole n xs (ground arith))

  reverse-drop : (n : ℕ) (xs : List A) → reverse (drop (length xs - n) xs) ≡ take n (reverse xs)
  reverse-drop zero [] = refl
  reverse-drop (suc n) [] =
      let e : length {A = A} [] - suc n ≡ 0 = omega arith in ap (λ k. reverse {A = A} (drop k [])) e
  reverse-drop n (x ∷ xs) = elim (Bool-cases (ltb (length xs) n)) [
    | inl short ↦
        let e : suc (length xs) - n ≡ 0 = ground (arith, short) in
        let whole : length (reverse (x ∷ xs)) ≤ n =
          ground (arith, short, length-reverse (x ∷ xs)) in
        ap (λ k. reverse (drop k (x ∷ xs))) e ∙ sym (take-whole n (reverse (x ∷ xs)) whole)
    | inr long ↦
        let e : suc (length xs) - n ≡ suc (length xs - n) = ground (arith, long) in
        let part : n ≤ length (reverse xs) = ground (arith, long, length-reverse xs) in
        ap (λ k. reverse (drop k (x ∷ xs))) e
        ∙ reverse-drop n xs
        ∙ sym (take-snoc n (reverse xs) x part)
        ∙ ap (take n) (sym (reverse-cons x xs))
  ]

  push_bounded :
      (m : ℕ) (xs : List A) (x : A)
      → (if ltb m (length (drop (length xs - m) xs ++ x ∷ []))
          then shift (drop (length xs - m) xs ++ x ∷ [])
          else drop (length xs - m) xs ++ x ∷ [])
        ≡ drop (length (xs ++ x ∷ []) - m) (xs ++ x ∷ [])
  push_bounded m xs x =
      let n = length-append xs (x ∷ []) in
      let k = length-append (drop (length xs - m) xs) (x ∷ []) in
      let d = length-drop (length xs - m) xs in
      let snoc = drop-snoc (length xs - m) xs x (omega arith) in
      elim (Bool-cases (ltb m (length (drop (length xs - m) xs ++ x ∷ [])))) [
        | inl full ↦
            let e : suc (length xs - m) ≡ length (xs ++ x ∷ []) - m =
              ground (arith, n, k, d, full) in
            rw full (
              ap (drop 1) (sym snoc)
              ∙ drop_one-drop (length xs - m) (xs ++ x ∷ [])
              ∙ ap (λ j. drop j (xs ++ x ∷ [])) e)
        | inr room ↦
            let e : length xs - m ≡ length (xs ++ x ∷ []) - m = ground (arith, n, k, d, room) in
            rw room (sym snoc ∙ ap (λ j. drop j (xs ++ x ∷ [])) e)
      ]

  keep-snoc :
      (p : A → Bool) (xs : List A) (x : A)
      → keep p (xs ++ x ∷ []) ≡ keep p xs ++ (if p x then x ∷ [] else [])
  keep-snoc p [] x = ground arith
  keep-snoc p (y ∷ xs) x = ground (arith, keep-snoc p xs x)

  keep-reverse : (p : A → Bool) (xs : List A) → keep p (reverse xs) ≡ reverse (keep p xs)
  keep-reverse p [] = refl
  keep-reverse p (x ∷ xs) =
      ap (keep p) (reverse-cons x xs)
      ∙ keep-snoc p (reverse xs) x
      ∙ ap (λ r. r ++ (if p x then x ∷ [] else [])) (keep-reverse p xs)
      ∙ elim (Bool-cases (p x)) [
        | inl stays ↦ rw stays (sym (reverse-cons x (keep p xs)))
        | inr goes ↦ rw goes (append-nil (reverse (keep p xs)))
      ]

  keep-keep : (p q : A → Bool) (xs : List A) → keep p (keep q xs) ≡ keep (λ x. q x && p x) xs
  keep-keep p q [] = refl
  keep-keep p q (x ∷ xs) = ground (arith, keep-keep p q xs)

-- What is done with the store.
pub data Call : Type 0 where
  captured : ℕ → Failed → Call
  cleared : Call

module _ (redact : List ℕ → List ℕ) where
  abbrev call : Call → List Entry → List Entry
  call (captured id f) store = (capture_failure redact id f store).1
  call cleared store = clear store

  abbrev pub calls : List Call → List Entry → List Entry
  calls [] store = store
  calls (c ∷ cs) store = calls cs (call c store)

  -- Every failure since the store was last cleared, oldest first.
  abbrev remember : Call → List Entry → List Entry
  remember (captured id f) history = history ++ entry_of redact id f ∷ []
  remember cleared history = []

  abbrev pub failures : List Call → List Entry → List Entry
  failures [] history = history
  failures (c ∷ cs) history = failures cs (remember c history)

  abbrev HoldsLast : List Entry → List Entry → Type 0
  HoldsLast store history = store ≡ drop (length history - max_entries) history

  call-HoldsLast :
      (c : Call) (store history : List Entry)
      → HoldsLast store history
      → HoldsLast (call c store) (remember c history)
  unfolding capture_failure
  call-HoldsLast cleared store history h = refl
  call-HoldsLast (captured id f) store history h =
      rw h (push_bounded max_entries history (entry_of redact id f))

  calls-HoldsLast :
      (cs : List Call) (store history : List Entry)
      → HoldsLast store history
      → HoldsLast (calls cs store) (failures cs history)
  calls-HoldsLast [] store history h = h
  calls-HoldsLast (c ∷ cs) store history h =
      calls-HoldsLast cs (call c store) (remember c history) (call-HoldsLast c store history h)

  -- After any captures and clears of the empty store, a list with a limit from 1 gives, of the
  -- thousand latest failures since the last clear, those of the queue and the organization that are
  -- asked for, the newest first, cut at the limit.
  pub list_entries-failures :
      (cs : List Call) (queue : Option (List ℕ)) (org : Option ℕ) (n : ℕ)
      → list_entries queue org (suc n) (calls cs [])
        ≡ take (suc n) (
            keep
              (λ e. of_queue queue e && of_organization org e)
              (take max_entries (reverse (failures cs []))))
  unfolding list_entries
  list_entries-failures cs queue org n =
      let p = of_queue queue in
      let q = of_organization org in
      let r = λ (e : Entry). p e && q e in
      let history = failures cs [] in
      ap (λ xs. reverse (slice_last (suc n) xs)) (keep-keep q p (calls cs []))
      ∙ reverse-drop (suc n) (keep r (calls cs []))
      ∙ ap (take (suc n)) (sym (keep-reverse r (calls cs [])))
      ∙ ap (λ store. take (suc n) (keep r (reverse store))) (calls-HoldsLast cs [] [] refl)
      ∙ ap (λ store. take (suc n) (keep r store)) (reverse-drop max_entries history)
