-- ===== src/Tests/Schemas.antt =====
-- Results of models at concrete data.
use magna_cms.Prelude.{◌≡◌, refl, codes, some}
use magna_cms.Models.{Json, str, obj, end, member, email}
use magna_cms.Schemas.Email.{EmailResult, of_json, is_valid}
use magna_cms.Schemas.Content.{email_result, model_validate, model_dump}
use magna_cms.Schemas.Content.RoundTrip.{model_validate-model_dump}

abbrev pub letter : EmailResult
letter = record {
  subject = codes "Tea";
  preview_text = codes "A cup of tea";
  greeting = codes "Dear reader,";
  body = codes "Come and drink tea.";
  cta_text = codes "Drink";
  sign_off = codes "Yours";
}

-- The members of the letter in another order.
abbrev pub letter_json : Json
letter_json = obj (
    member "sign_off" (str (codes "Yours")) (
      member "preview_text" (str (codes "A cup of tea")) (
        member "subject" (str (codes "Tea")) (
          member "greeting" (str (codes "Dear reader,")) (
            member "body" (str (codes "Come and drink tea."))
              (member "cta_text" (str (codes "Drink")) end))))))

pub model_validate-letter : model_validate email letter_json ≡ some (email_result letter)
unfolding model_validate of_json is_valid
model_validate-letter = refl

model_validate-model_dump_example :
    model_validate email (model_dump (email_result letter)) ≡ some (email_result letter)
model_validate-model_dump_example =
    model_validate-model_dump email letter_json model_validate-letter
