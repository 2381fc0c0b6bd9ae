-- ===== src/Tests/Generation.antt =====
-- Generations with concrete providers.
use magna_cms.Prelude.{
  ℕ, zero, ◌≤◌, ◌≡◌, refl, String, Text, codes, text_eq, Option, none, some, List, [], ◌∷◌, length,
  if◌then◌else◌,
}
use magna_cms.Models.{ContentPiece, Json, email}
use magna_cms.Session.{World, Result, ok, LlmRequest, LlmResult}
use magna_cms.Session.Usage.{spent, kept_totals}
use magna_cms.Schemas.Content.{GenerateRequest}
use magna_cms.Content.Service.{maybe_brand_voice_block}
use magna_cms.Content.Service.Stages.{IsReady, IsEnd, generate_ends, totals_of}
use magna_cms.Content.Routes as Routes
use magna_cms.Content.Routes.{GenerateResponse, ContentDetailResponse, get_content}
use magna_cms.Content.Routes.Generated.{generate-get_content}
use magna_cms.Content.Repository.Readable.{AllReadable}
use magna_cms.Content.Routes.Requests.{
  ContentRequest, generate_request, get_request, delete_request, restore_request, serve,
  serve-AllReadable,
}
use magna_cms.Tests.World.{external, world}
use magna_cms.Tests.Schemas.{letter_json}

abbrev answer_of : String → LlmResult
answer_of s = record {
  raw_text = codes s;
  model = "gpt";
  input_tokens = 10;
  output_tokens = 20;
  cost_usd = 3;
}

-- What the texts of the answers are decoded to: one of them is a valid email.
abbrev pub json_loads : Text → Option Json
json_loads t = if text_eq t (codes "letter") then some letter_json else none

abbrev llm : ℕ → LlmRequest → Result LlmResult
llm n r = ok (answer_of "letter")

abbrev second_best : ℕ → LlmRequest → Result LlmResult
second_best n r = elim n [ zero ↦ ok (answer_of "no") | _ ↦ ok (answer_of "letter") ]

abbrev never : ℕ → LlmRequest → Result LlmResult
never n r = ok (answer_of "no")

abbrev pub about_tea : GenerateRequest
about_tea = record {
  content_type = email;
  topic = codes "Tea";
  tone = none;
  target_audience = none;
  brand_voice_id = none;
}

abbrev here : World
here = world []

ready :
    (l : ℕ → LlmRequest → Result LlmResult) → IsReady external l json_loads 7 about_tea none here
unfolding maybe_brand_voice_block
ready l = (refl, refl, refl)

generate_ends_example :
    (piece : ContentPiece) × (requests : List LlmRequest) × IsEnd external never json_loads 7
      about_tea none here requests piece
    × (1 ≤ length requests)
    × (length requests ≤ 2)
    × (totals_of piece ≡ kept_totals (spent never 0 requests))
generate_ends_example =
    generate_ends external never json_loads 7 about_tea none here (ready never)
      (λ n r. (answer_of "no", refl))

generate-get_content_example :
    (response : GenerateResponse) × (shown : ContentDetailResponse) × (v : World) × (Routes.generate
        external llm json_loads 7 about_tea here
      ≡ (ok response, v))
    × (v.committed ≡ v.db)
    × (get_content external 7 response.content_id v ≡ (ok shown, v))
    × (shown.content_type ≡ response.content_type)
    × (shown.result ≡ response.result)
    × (shown.rendered_text ≡ response.rendered_text)
    × (shown.result_parse_status ≡ response.result_parse_status)
    × (shown.word_count ≡ response.word_count)
    × (shown.topic ≡ codes "Tea")
    × (shown.deleted_at ≡ none)
generate-get_content_example =
    generate-get_content external llm json_loads 7 about_tea none here (ready llm) (λ p h. refl)
      (λ n r. (answer_of "letter", refl)) refl

abbrev tea_and_more : List ContentRequest
tea_and_more =
    generate_request 7 about_tea
    ∷ get_request 7 100
    ∷ delete_request 7 100
    ∷ restore_request 7 100
    ∷ []

serve-AllReadable_example : AllReadable (serve external second_best json_loads tea_and_more here)
serve-AllReadable_example =
    serve-AllReadable external second_best json_loads tea_and_more here
      (record { current = refl; committed = refl })
