-- ===== src/Renderers/Words.antt =====
-- `word_count` of backend/app/services/renderers/blog_post.py and `_word_count` of
-- improver_service.py, and `str.split` that they call.
use magna_cms.Prelude.{
  ℕ, ◌+◌, ◌≤◌, ◌≡◌, refl, ap, ◌∙◌, sym, Text, Bool, true, false, ◌&&◌, ◌||◌, not, List, [], ◌∷◌,
  ◌++◌, all, length, is_empty, is_space, strip, lstrip, rstrip, drop_while, drop_while_end, join,
  arith, if◌then◌else◌, Bool-cases, inl, inr, codes,
}

-- A letter before the first word of the rest.
abbrev pub push : ℕ → List Text → List Text
push c [] = (c ∷ []) ∷ []
push c (w ∷ ws) = (c ∷ w) ∷ ws

abbrev pub starts_word : Text → Bool
starts_word [] = false
starts_word (c ∷ t) = not (is_space c)

-- `text.split()`
unfoldable pub split : Text → List Text
split [] = []
split (c ∷ t) =
    let rest = split t in
    if is_space c then rest else if starts_word t then push c rest else (c ∷ []) ∷ rest

unfoldable pub word_count : Text → ℕ
unfolding split
word_count text = if is_empty (strip text) then 0 else length (split text)

-- The letters that follow no letter: the starts of words.
abbrev pub count_starts : Bool → Text → ℕ
count_starts in_word [] = 0
count_starts in_word (c ∷ t) =
    let rest = count_starts (not (is_space c)) t in if is_space c || in_word then rest else rest + 1

count_starts-next :
    (t : Text) → count_starts true t + (if starts_word t then 1 else 0) ≡ count_starts false t
count_starts-next [] = refl
count_starts-next (c ∷ t) = ground arith

length-push : (c : ℕ) (ws : List Text) → 1 ≤ length ws → length (push c ws) ≡ length ws
length-push c [] h = absurd (omega arith)
length-push c (w ∷ ws) h = refl

length-split : (t : Text) → length (split t) ≡ count_starts false t
unfolding split
length-split [] = refl
length-split (c ∷ t) =
    let ih = length-split t in
    let next = count_starts-next t in
    elim (Bool-cases (is_space c)) [
      | inl space ↦ rw space ih
      | inr letter ↦ elim (Bool-cases (starts_word t)) [
        | inl more ↦
            let enough : 1 ≤ length (split t) = ground arith in
            let one = length-push c (split t) enough in rw (letter, more) (ground arith)
        | inr last ↦ rw (letter, last) (ground arith)
      ]
    ]

is_empty-drop_while : (p : ℕ → Bool) (t : Text) → is_empty (drop_while p t) ≡ all p t
is_empty-drop_while p [] = refl
is_empty-drop_while p (c ∷ t) = ground (arith, is_empty-drop_while p t)

is_empty-drop_while_end : (p : ℕ → Bool) (t : Text) → is_empty (drop_while_end p t) ≡ all p t
is_empty-drop_while_end p [] = refl
is_empty-drop_while_end p (c ∷ t) = ground (arith, is_empty-drop_while_end p t)

all-drop_while : (p : ℕ → Bool) (t : Text) → all p (drop_while p t) ≡ all p t
all-drop_while p [] = refl
all-drop_while p (c ∷ t) = ground (arith, all-drop_while p t)

-- A text that `strip` leaves empty is nothing but blanks.
pub is_empty-strip : (t : Text) → is_empty (strip t) ≡ all is_space t
unfolding strip lstrip rstrip
is_empty-strip t =
    is_empty-drop_while_end is_space (drop_while is_space t) ∙ all-drop_while is_space t

count_starts-blank : (b : Bool) (t : Text) → all is_space t ≡ true → count_starts b t ≡ 0
count_starts-blank b [] h = refl
count_starts-blank b (c ∷ t) h = ground (arith, count_starts-blank (not (is_space c)) t)

-- The word count of a text is the number of letters, characters that are no blanks, that stand at
-- the start of the text or after a blank; the test for a text of blanks makes no difference.
word_count-eq-count_starts : (t : Text) → word_count t ≡ count_starts false t
unfolding word_count
word_count-eq-count_starts t = elim (Bool-cases (is_empty (strip t))) [
  | inl e ↦ rw e (sym (count_starts-blank false t (sym (is_empty-strip t) ∙ e)))
  | inr e ↦ rw e (length-split t)
]

-- A word: at least one letter and no blank.
abbrev pub is_word : Text → Bool
is_word w = not (is_empty w) && all (λ c. not (is_space c)) w

split-blank : (rest : Text) → split (b' ' ∷ rest) ≡ split rest
unfolding split is_space
split-blank rest = refl

split-more :
    (c : ℕ) (t : Text)
    → is_space c ≡ false
    → starts_word t ≡ true
    → split (c ∷ t) ≡ push c (split t)
unfolding split
split-more c t h k = rw (h, k) refl

split-end :
    (c : ℕ) (t : Text)
    → is_space c ≡ false
    → starts_word t ≡ false
    → split (c ∷ t) ≡ (c ∷ []) ∷ split t
unfolding split
split-end c t h k = rw (h, k) refl

-- A word, then a blank, then anything.
split-word :
    (c : ℕ) (w rest : Text)
    → all (λ c. not (is_space c)) (c ∷ w) ≡ true
    → split ((c ∷ w) ++ (b' ' ∷ rest)) ≡ (c ∷ w) ∷ split rest
split-word c [] rest h =
    split-end c (b' ' ∷ rest) (ground arith) blank ∙ ap (λ ws. (c ∷ []) ∷ ws) (split-blank rest)
  where
    blank : starts_word (b' ' ∷ rest) ≡ false
    blank = unfold is_space in refl
split-word c (d ∷ w) rest h =
    split-more c ((d ∷ w) ++ (b' ' ∷ rest)) (ground arith) (ground arith)
    ∙ ap (push c) (split-word d w rest (ground arith))

split-last :
    (c : ℕ) (w : Text) → all (λ c. not (is_space c)) (c ∷ w) ≡ true → split (c ∷ w) ≡ (c ∷ w) ∷ []
unfolding split
split-last c [] h = ground arith
split-last c (d ∷ w) h = ground (arith, split-last d w)

-- Words that are joined by single blanks are split into the same words.
pub split-join : (ws : List Text) → all is_word ws ≡ true → split (join (codes " ") ws) ≡ ws
unfolding join
split-join [] h = unfold split in refl
split-join ([] ∷ ws) h = cc
split-join ((c ∷ w) ∷ []) h = split-last c w (ground arith)
split-join ((c ∷ w) ∷ v ∷ ws) h =
    split-word c w (join (codes " ") (v ∷ ws)) (ground arith)
    ∙ ap (λ us. (c ∷ w) ∷ us) (split-join (v ∷ ws) (ground arith))
