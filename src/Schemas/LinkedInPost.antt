-- ===== src/Schemas/LinkedInPost.antt =====
-- The shape of a LinkedIn post in backend/app/schemas/content.py: read from JSON (`of_json`), checked
-- (`is_valid`) and written (`model_dump`).
use magna_cms.Prelude.{
  ◌≡◌, refl, String, Text, Bool, ◌&&◌, Option, some, List, [], ◌∷◌, leb, length,
}
use magna_cms.Models.{Json, str, obj, end, member}
use magna_cms.Schemas.Values.{
  ◌>>=◌, value_of, closed, text_of, texts_of, to_texts, within, filled, items_of-to_items,
}

pub record LinkedInPostResult : Type 0 where
  pub hook : Text
  pub body : Text
  pub cta : Text
  pub hashtags : List Text

abbrev pub fields : List String
fields = "hook" ∷ "body" ∷ "cta" ∷ "hashtags" ∷ []

unfoldable pub of_json : Json → Option LinkedInPostResult
of_json j = closed fields j >>= λ ms. text_of (value_of "hook" ms) >>= λ hook.
    text_of (value_of "body" ms) >>= λ body. text_of (value_of "cta" ms) >>= λ cta.
    texts_of (value_of "hashtags" ms) >>= λ hashtags.
    some (record { hook = hook; body = body; cta = cta; hashtags = hashtags })

unfoldable pub is_valid : LinkedInPostResult → Bool
is_valid r =
    within 1 500 r.hook
    && filled r.body
    && within 1 500 r.cta
    && leb 1 (length r.hashtags)
    && leb (length r.hashtags) 10

unfoldable pub model_dump : LinkedInPostResult → Json
model_dump r = obj (
    member "hook" (str r.hook) (
      member "body" (str r.body)
        (member "cta" (str r.cta) (member "hashtags" (to_texts r.hashtags) end))))

-- What is written is read again.
pub of_json-model_dump : (r : LinkedInPostResult) → of_json (model_dump r) ≡ some r
unfolding of_json model_dump
of_json-model_dump r =
    rw (items_of-to_items (λ j. text_of (some j)) str r.hashtags (λ t. refl)) refl
