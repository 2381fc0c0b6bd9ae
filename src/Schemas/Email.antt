-- ===== src/Schemas/Email.antt =====
-- The shape of an email in backend/app/schemas/content.py: read from JSON (`of_json`), checked
-- (`is_valid`) and written (`model_dump`).
use magna_cms.Prelude.{◌≡◌, refl, String, Text, Bool, ◌&&◌, Option, some, List, [], ◌∷◌}
use magna_cms.Models.{Json, str, obj, end, member}
use magna_cms.Schemas.Values.{◌>>=◌, value_of, closed, text_of, within, filled}

pub record EmailResult : Type 0 where
  pub subject : Text
  pub preview_text : Text
  pub greeting : Text
  pub body : Text
  pub cta_text : Text
  pub sign_off : Text

abbrev pub fields : List String
fields = "subject" ∷ "preview_text" ∷ "greeting" ∷ "body" ∷ "cta_text" ∷ "sign_off" ∷ []

unfoldable pub of_json : Json → Option EmailResult
of_json j = closed fields j >>= λ ms. text_of (value_of "subject" ms) >>= λ subject.
    text_of (value_of "preview_text" ms) >>= λ preview_text.
    text_of (value_of "greeting" ms) >>= λ greeting. text_of (value_of "body" ms) >>= λ body.
    text_of (value_of "cta_text" ms) >>= λ cta_text.
    text_of (value_of "sign_off" ms) >>= λ sign_off. some (record {
      subject = subject;
      preview_text = preview_text;
      greeting = greeting;
      body = body;
      cta_text = cta_text;
      sign_off = sign_off;
    })

unfoldable pub is_valid : EmailResult → Bool
is_valid r =
    within 1 140 r.subject
    && within 1 200 r.preview_text
    && within 1 200 r.greeting
    && filled r.body
    && within 1 80 r.cta_text
    && within 1 200 r.sign_off

unfoldable pub model_dump : EmailResult → Json
model_dump r = obj (
    member "subject" (str r.subject) (
      member "preview_text" (str r.preview_text) (
        member "greeting" (str r.greeting) (
          member "body" (str r.body)
            (member "cta_text" (str r.cta_text) (member "sign_off" (str r.sign_off) end))))))

-- What is written is read again.
pub of_json-model_dump : (r : EmailResult) → of_json (model_dump r) ≡ some r
unfolding of_json model_dump
of_json-model_dump r = refl
