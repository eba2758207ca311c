-- ===== src/Text.antt =====
-- The text operations of the language that the document services share: a text is the list of its
-- UTF-16 code units, and `text.trim().split(/\s+/).filter(Boolean)` the list of its words.
use Prim.Native.Char.{code}
use Prim.Native.String.{String}
use doc_query.Base.{
  arith, any, ◌+◌, ◌↔◌, map, ◌&&◌, leb, false, true, Bool-cases, inl, inr, ℕ, ◌≡◌, refl, sym, ap,
  ◌∙◌, Bool, ◌||◌, ◌==◌, List, [], ◌∷◌, ◌++◌, All, if◌then◌else◌,
}
use mathlib.Core.List.{append-nil, append_assoc, reverse}

-- The units that `\s` matches and `trim` removes.
unfoldable pub is_space : ℕ → Bool
is_space c =
    ((leb 9 c && leb c 13) || (c == 32) || (c == 160) || (c == 0x1680))
    || ((leb 0x2000 c && leb c 0x200a) || (c == 0x2028) || (c == 0x2029))
    || ((c == 0x202f) || (c == 0x205f) || (c == 0x3000) || (c == 0xfeff))

abbrev flush : List ℕ → List (List ℕ) → List (List ℕ)
flush [] rest = rest
flush (c ∷ cs) rest = (c ∷ cs) ∷ rest

-- The words of a text, after the units of the current word.
split_from : List ℕ → List ℕ → List (List ℕ)
unfolding is_space
split_from cur [] = flush cur []
split_from cur (c ∷ s) =
    let ended = flush cur (split_from [] s) in
    let longer = split_from (cur ++ c ∷ []) s in if is_space c then ended else longer

unfoldable pub words : List ℕ → List (List ℕ)
unfolding split_from
words s = split_from [] s

-- `ws.join(' ')`
abbrev pub join : List (List ℕ) → List ℕ
join [] = []
join (w ∷ []) = w
join (w ∷ v ∷ ws) = w ++ 32 ∷ join (v ∷ ws)

-- A word: not empty, and without white space.
abbrev pub NoSpace : List ℕ → Type 0
NoSpace w = All (λ c. is_space c ≡ false) w

abbrev pub IsWord : List ℕ → Type 0
IsWord [] = ⊥
IsWord (c ∷ w) = NoSpace (c ∷ w)

split_from-append :
    (cur w s : List ℕ) → NoSpace w → split_from cur (w ++ s) ≡ split_from (cur ++ w) s
unfolding split_from
split_from-append cur [] s h = rw append-nil
split_from-append cur (c ∷ w) s h =
    rw h.0 (split_from-append (cur ++ c ∷ []) w s h.1 ∙ rw append_assoc)

split_from-join :
    (w : List ℕ) (ws : List (List ℕ))
    → IsWord w
    → All IsWord ws
    → split_from [] (join (w ∷ ws)) ≡ w ∷ ws
unfolding split_from is_space
split_from-join [] ws h hs = elim h [ ]
split_from-join (c ∷ w) [] h hs =
    ap (split_from []) (sym (append-nil (c ∷ w))) ∙ split_from-append [] (c ∷ w) [] h
split_from-join (c ∷ w) (v ∷ ws) h hs =
    split_from-append [] (c ∷ w) (32 ∷ join (v ∷ ws)) h
    ∙ ap (λ r. (c ∷ w) ∷ r) (split_from-join v ws hs.0 hs.1)

-- Words joined by single spaces are read back as they were.
pub words-join : (ws : List (List ℕ)) → All IsWord ws → words (join ws) ≡ ws
unfolding words
words-join [] h = refl
words-join (w ∷ ws) h = split_from-join w ws h.0 h.1

NoSpace-snoc : (w : List ℕ) (c : ℕ) → NoSpace w → is_space c ≡ false → NoSpace (w ++ c ∷ [])
NoSpace-snoc [] c h k = (k, tt)
NoSpace-snoc (b ∷ w) c h k = (h.0, NoSpace-snoc w c h.1 k)

flush-IsWord :
    (w : List ℕ) (rest : List (List ℕ)) → NoSpace w → All IsWord rest → All IsWord (flush w rest)
flush-IsWord [] rest h k = k
flush-IsWord (c ∷ w) rest h k = (h, k)

split_from-IsWord : (cur s : List ℕ) → NoSpace cur → All IsWord (split_from cur s)
unfolding split_from
split_from-IsWord cur [] h = flush-IsWord cur [] h tt
split_from-IsWord cur (c ∷ s) h = elim (Bool-cases (is_space c)) [
  | inl space ↦ rw space (flush-IsWord cur (split_from [] s) h (split_from-IsWord [] s tt))
  | inr letter ↦ rw letter (split_from-IsWord (cur ++ c ∷ []) s (NoSpace-snoc cur c h letter))
]

pub words-IsWord : (s : List ℕ) → All IsWord (words s)
unfolding words
words-IsWord s = split_from-IsWord [] s tt

-- The units of a literal text; constants are ASCII.
abbrev pub codes : String → List ℕ
codes String.[] = []
codes (String.◌∷◌ c s) = code c ∷ codes s

-- `a === b` on texts.
unfoldable pub text_eq : List ℕ → List ℕ → Bool
text_eq [] [] = true
text_eq [] (b ∷ bs) = false
text_eq (a ∷ as_) [] = false
text_eq (a ∷ as_) (b ∷ bs) = a == b && text_eq as_ bs

pub text_eq_iff : (a b : List ℕ) → (text_eq a b ≡ true) ↔ (a ≡ b)
unfolding text_eq
text_eq_iff [] [] = ((λ h. refl), (λ h. refl))
text_eq_iff [] (b ∷ bs) = ground arith
text_eq_iff (a ∷ as_) [] = ground arith
text_eq_iff (a ∷ as_) (b ∷ bs) = ground (arith, text_eq_iff as_ bs)

-- `xs.includes(a)` on texts.
abbrev pub includes : List (List ℕ) → List ℕ → Bool
includes xs a = any (λ x. text_eq x a) xs

-- `s.startsWith(p)`
unfoldable pub starts_with : List ℕ → List ℕ → Bool
starts_with [] s = true
starts_with (a ∷ p) [] = false
starts_with (a ∷ p) (b ∷ s) = a == b && starts_with p s

pub starts_with-append : (p s : List ℕ) → starts_with p (p ++ s) ≡ true
unfolding starts_with
starts_with-append [] s = refl
starts_with-append (a ∷ p) s = ground (arith, starts_with-append p s)

-- `s.trim()`
abbrev pub skip_spaces : List ℕ → List ℕ
skip_spaces [] = []
skip_spaces (c ∷ s) = let rest = skip_spaces s in if is_space c then rest else c ∷ s

abbrev pub trim : List ℕ → List ℕ
trim s = reverse (skip_spaces (reverse (skip_spaces s)))

-- `s.toLowerCase()` on ASCII.
unfoldable pub lower_unit : ℕ → ℕ
lower_unit c = if leb 65 c && leb c 90 then c + 32 else c

abbrev pub lower : List ℕ → List ℕ
lower = map lower_unit
