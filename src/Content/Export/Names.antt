-- ===== src/Content/Export/Names.antt =====
-- Slugs and file names of exports are safe, whatever the topic is.
use magna_cms.Prelude.{
  ℕ, zero, suc, ◌≤◌, ◌≡◌, refl, ◌∙◌, Text, codes, Bool, true, false, ◌||◌, [], ◌∷◌, ◌++◌, take,
  length, all, all-append, all_mono, length-take, length-append, is_empty, drop_while,
  drop_while_end, Bool-cases, inl, inr, arith, ◌==◌,
}
use magna_cms.Models.{ContentPiece, Uuid}
use magna_cms.Content.Export.{dash, slug_char, hyphenate, or_content, slugify, filename_for}

abbrev pub safe_char : ℕ → Bool
safe_char c = slug_char c || dash c

hyphenate-safe : (in_run : Bool) (t : Text) → all safe_char (hyphenate in_run t) ≡ true
hyphenate-safe in_run [] = refl
hyphenate-safe in_run (c ∷ t) = ground (arith, hyphenate-safe true t, hyphenate-safe false t)

drop_while-safe : (p q : ℕ → Bool) (t : Text) → all q t ≡ true → all q (drop_while p t) ≡ true
drop_while-safe p q [] h = refl
drop_while-safe p q (c ∷ t) h = ground (arith, drop_while-safe p q t)

drop_while_end-safe :
    (p q : ℕ → Bool) (t : Text) → all q t ≡ true → all q (drop_while_end p t) ≡ true
drop_while_end-safe p q [] h = refl
drop_while_end-safe p q (c ∷ t) h = ground (arith, drop_while_end-safe p q t)

take-safe : (q : ℕ → Bool) (n : ℕ) (t : Text) → all q t ≡ true → all q (take n t) ≡ true
take-safe q zero t h = refl
take-safe q (suc n) [] h = refl
take-safe q (suc n) (c ∷ t) h = ground (arith, take-safe q n t)

length-drop_while_end : (p : ℕ → Bool) (t : Text) → length (drop_while_end p t) ≤ length t
length-drop_while_end p [] = omega arith
length-drop_while_end p (c ∷ t) = ground (arith, length-drop_while_end p t)

or_content-safe :
    (t : Text)
    → all safe_char t ≡ true
    → length t ≤ 60
    → (all safe_char (or_content t) ≡ true)
      × (1 ≤ length (or_content t))
      × (length (or_content t) ≤ 60)
or_content-safe [] h k = (refl, omega arith, omega arith)
or_content-safe (c ∷ t) h k = (h, omega arith, k)

-- A slug is made of 1 to 60 characters, each a small ASCII letter, a digit or a hyphen, whatever
-- the topic is and whatever `lower` makes of it.
pub slugify_safe :
    (lower : Text → Text) (topic : Text)
    → (all safe_char (slugify lower topic) ≡ true)
      × (1 ≤ length (slugify lower topic))
      × (length (slugify lower topic) ≤ 60)
unfolding slugify
slugify_safe lower topic =
    let slug = drop_while_end dash (drop_while dash (hyphenate false (lower topic))) in
    let clean : all safe_char slug ≡ true =
      drop_while_end-safe dash safe_char (drop_while dash (hyphenate false (lower topic))) (
        drop_while-safe dash safe_char (hyphenate false (lower topic))
          (hyphenate-safe false (lower topic))) in
    let cut = take 60 slug in
    elim (Bool-cases (is_empty slug)) [
      | inl e ↦ rw e (refl, omega arith, omega arith)
      | inr e ↦ rw e (
          or_content-safe (drop_while_end dash cut)
            (drop_while_end-safe dash safe_char cut (take-safe safe_char 60 slug clean))
            (omega (arith, length-drop_while_end dash cut, length-take 60 slug)))
    ]

abbrev pub name_char : ℕ → Bool
name_char c = safe_char c || c == b'.'

name_of_safe : (c : ℕ) → safe_char c ≡ true → name_char c ≡ true
name_of_safe c h = ground arith

named-safe :
    (slug id : Text)
    → all safe_char slug ≡ true
    → all safe_char id ≡ true
    → all name_char (slug ++ (codes "-" ++ (id ++ codes ".md"))) ≡ true
named-safe slug id h k =
    all-append name_char slug (codes "-" ++ (id ++ codes ".md"))
    ∙ rw
        (
          all_mono safe_char name_char slug name_of_safe h,
          all-append name_char id (codes ".md"),
          all_mono safe_char name_char id name_of_safe k,
        )
        refl

length-named :
    (slug id : Text)
    → length slug ≤ 60
    → length id ≤ 8
    → length (slug ++ (codes "-" ++ (id ++ codes ".md"))) ≤ 72
length-named slug id h k =
    omega
      (arith, length-append slug (codes "-" ++ (id ++ codes ".md")), length-append id (codes ".md"))

-- The file name of an export stands in quotes in a header: it has at most 72 characters, each a
-- small ASCII letter, a digit, a hyphen or a dot, so no quote and no line break, if the text of a
-- UUID is made of such characters.
filename_for-safe :
    (lower : Text → Text) (id_text : Uuid → Text) (piece : ContentPiece)
    → all safe_char (id_text piece.id) ≡ true
    → (all name_char (filename_for lower id_text piece) ≡ true)
      × (length (filename_for lower id_text piece) ≤ 72)
unfolding filename_for
filename_for-safe lower id_text piece h =
    let (clean, filled, short) = slugify_safe lower piece.topic in
    let id = take 8 (id_text piece.id) in
    (
      named-safe (slugify lower piece.topic) id clean (take-safe safe_char 8 (id_text piece.id) h),
      length-named (slugify lower piece.topic) id short
          (omega (arith, length-take 8 (id_text piece.id))),
    )
