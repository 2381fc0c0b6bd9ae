-- ===== src/Schemas/BlogPost.antt =====
-- The shape of a blog post in backend/app/schemas/content.py: read from JSON (`of_json`), checked
-- (`is_valid`) and written (`model_dump`).
use magna_cms.Prelude.{
  ◌≡◌, refl, String, Text, Bool, ◌&&◌, Option, some, List, [], ◌∷◌, all, leb, length,
}
use magna_cms.Models.{Json, str, arr, obj, end, member}
use magna_cms.Schemas.Values.{
  ◌>>=◌, value_of, closed, opened, text_of, list_of, to_items, texts_of, to_texts, within, filled,
  items_of-to_items,
}

pub record BlogPostSection : Type 0 where
  pub heading : Text
  pub body : Text

pub record BlogPostResult : Type 0 where
  pub title : Text
  pub meta_description : Text
  pub intro : Text
  pub sections : List BlogPostSection
  pub conclusion : Text
  pub suggested_tags : List Text

-- A section may have other members; they are ignored.
abbrev pub section_of : Json → Option BlogPostSection
section_of j = opened j >>= λ ms. text_of (value_of "heading" ms) >>= λ heading.
    text_of (value_of "body" ms) >>= λ body. some (record { heading = heading; body = body })

abbrev pub section_dump : BlogPostSection → Json
section_dump s = obj (member "heading" (str s.heading) (member "body" (str s.body) end))

abbrev pub fields : List String
fields = "title" ∷ "meta_description" ∷ "intro" ∷ "sections" ∷ "conclusion" ∷ "suggested_tags" ∷ []

unfoldable pub of_json : Json → Option BlogPostResult
of_json j = closed fields j >>= λ ms. text_of (value_of "title" ms) >>= λ title.
    text_of (value_of "meta_description" ms) >>= λ meta_description.
    text_of (value_of "intro" ms) >>= λ intro.
    list_of section_of (value_of "sections" ms) >>= λ sections.
    text_of (value_of "conclusion" ms) >>= λ conclusion.
    texts_of (value_of "suggested_tags" ms) >>= λ suggested_tags. some (record {
      title = title;
      meta_description = meta_description;
      intro = intro;
      sections = sections;
      conclusion = conclusion;
      suggested_tags = suggested_tags;
    })

unfoldable pub is_valid : BlogPostResult → Bool
is_valid r =
    within 1 200 r.title
    && within 1 160 r.meta_description
    && filled r.intro
    && leb 1 (length r.sections)
    && all (λ s. filled s.heading && filled s.body) r.sections
    && filled r.conclusion
    && leb 1 (length r.suggested_tags)
    && leb (length r.suggested_tags) 10

unfoldable pub model_dump : BlogPostResult → Json
model_dump r = obj (
    member "title" (str r.title) (
      member "meta_description" (str r.meta_description) (
        member "intro" (str r.intro) (
          member "sections" (arr (to_items section_dump r.sections)) (
            member "conclusion" (str r.conclusion)
              (member "suggested_tags" (to_texts r.suggested_tags) end))))))

-- What is written is read again.
pub of_json-model_dump : (r : BlogPostResult) → of_json (model_dump r) ≡ some r
unfolding of_json model_dump
of_json-model_dump r =
    rw
      (
        items_of-to_items section_of section_dump r.sections (λ s. refl),
        items_of-to_items (λ j. text_of (some j)) str r.suggested_tags (λ t. refl),
      )
      refl
