-- ===== src/Renderers/Tags.antt =====
-- `_tag` of backend/app/services/renderers/blog_post.py and linkedin_post.py, and the line of tags.
use magna_cms.Prelude.{
  ◌≡◌, refl, Text, codes, Bool, true, false, not, List, [], ◌∷◌, map, all, select, is_empty,
  is_space, strip, drop_while, join, ◌==◌, arith, if◌then◌else◌, Bool-cases, inl, inr,
}
use magna_cms.Renderers.Words.{split, is_word, split-join}

-- `re.sub(r"\s+", "-", t)`; the flag says whether the run of blanks has had its hyphen.
abbrev pub hyphenate_blanks : Bool → Text → Text
hyphenate_blanks in_run [] = []
hyphenate_blanks in_run (c ∷ t) =
    let after_blank = hyphenate_blanks true t in
    let after_letter = hyphenate_blanks false t in
    if is_space c then (if in_run then after_blank else b'-' ∷ after_blank) else c ∷ after_letter

unfoldable pub tag : Text → Text
tag t =
    let cleaned = hyphenate_blanks false (drop_while (λ c. c == b'#') (strip t)) in
    if is_empty cleaned then [] else b'#' ∷ cleaned

-- `[t for t in (_tag(tag) for tag in tags) if t]`
unfoldable pub rendered_tags : List Text → List Text
rendered_tags tags = select (λ t. not (is_empty t)) (map tag tags)

hyphenate_blanks-letters :
    (in_run : Bool) (t : Text) → all (λ c. not (is_space c)) (hyphenate_blanks in_run t) ≡ true
hyphenate_blanks-letters in_run [] = refl
hyphenate_blanks-letters in_run (c ∷ t) =
    let hyphen : is_space b'-' ≡ false = unfold is_space in refl in
    ground (arith, hyphenate_blanks-letters true t, hyphenate_blanks-letters false t)

tag-is_word : (t : Text) → is_empty (tag t) ≡ false → is_word (tag t) ≡ true
unfolding tag
tag-is_word t h =
    let cleaned = hyphenate_blanks false (drop_while (λ c. c == b'#') (strip t)) in
    let letters = hyphenate_blanks-letters false (drop_while (λ c. c == b'#') (strip t)) in
    let mark : is_space b'#' ≡ false = unfold is_space in refl in
    elim (Bool-cases (is_empty cleaned)) [
      | inl e ↦ let h' = rw e at h in cc
      | inr e ↦ rw (e, mark, letters) refl
    ]

all-rendered_tags : (tags : List Text) → all is_word (rendered_tags tags) ≡ true
unfolding rendered_tags
all-rendered_tags [] = refl
all-rendered_tags (t ∷ tags) = elim (Bool-cases (is_empty (tag t))) [
  | inl e ↦ rw e (all-rendered_tags tags)
  | inr e ↦ rw (e, tag-is_word t e) (all-rendered_tags tags)
]

-- Whatever the tags of a result are, their line, where they stand joined by blanks, is split at
-- blanks into the same tags: none of them holds a blank and none is lost.
pub split-rendered_tags :
    (tags : List Text) → split (join (codes " ") (rendered_tags tags)) ≡ rendered_tags tags
split-rendered_tags tags = split-join (rendered_tags tags) (all-rendered_tags tags)
