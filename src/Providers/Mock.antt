-- ===== src/Providers/Mock.antt =====
-- backend/app/providers/llm/mock.py and image/mock.py: the providers of demos and tests. `json.dumps`
-- is a parameter.
pub mod Canned
pub mod Runs
use magna_cms.Prelude.{ℕ, ◌/◌, String, Text, codes, List, [], ◌∷◌, length, str_eq, if◌then◌else◌}
use magna_cms.Models.{Json}
use magna_cms.Session.{Result, ok, LlmRequest, LlmResult}
use magna_cms.Images.Service.{ImageQuality, ImageResult}
use magna_cms.Providers.Mock.Canned

-- `_CANNED_RESPONSES.get(content_type, _UNKNOWN_FALLBACK)`
unfoldable pub canned_response : String → Json
canned_response t =
    if str_eq t "blog_post"
    then Canned.blog_post
    else if str_eq t "linkedin_post"
    then Canned.linkedin_post
    else if str_eq t "ad_copy"
    then Canned.ad_copy
    else if str_eq t "email"
    then Canned.email
    else if str_eq t "image_prompt"
    then Canned.image_prompt
    else if str_eq t "improver_analysis"
    then Canned.improver_analysis
    else if str_eq t "improver_rewrite"
    then Canned.improver_rewrite
    else Canned.unknown_fallback

-- `MockLLMProvider.generate`
unfoldable pub generate : (Json → Text) → ℕ → LlmRequest → Result LlmResult
generate json_dumps n request =
    let raw_text = json_dumps (canned_response request.content_type) in
    ok (record {
      raw_text = raw_text;
      model = "mock-llm-v1";
      input_tokens = 10;
      output_tokens = length raw_text / 4;
      cost_usd = 0;
    })

-- The bytes of `_PLACEHOLDER_PNG`.
abbrev pub placeholder_png : List ℕ
placeholder_png =
    137 ∷ 80 ∷ 78 ∷ 71 ∷ 13 ∷ 10 ∷ 26 ∷ 10 ∷ 0 ∷ 0 ∷ 0 ∷ 13 ∷ 73 ∷ 72 ∷ 68 ∷ 82 ∷ 0 ∷ 0 ∷ 0 ∷ 1 ∷ 0
    ∷ 0 ∷ 0 ∷ 1 ∷ 8 ∷ 6 ∷ 0 ∷ 0 ∷ 0 ∷ 31 ∷ 21 ∷ 196 ∷ 137 ∷ 0 ∷ 0 ∷ 0 ∷ 13 ∷ 73 ∷ 68 ∷ 65 ∷ 84 ∷ 120
    ∷ 218 ∷ 99 ∷ 100 ∷ 96 ∷ 248 ∷ 95 ∷ 15 ∷ 0 ∷ 2 ∷ 135 ∷ 1 ∷ 128 ∷ 235 ∷ 71 ∷ 186 ∷ 146 ∷ 0 ∷ 0 ∷ 0
    ∷ 0 ∷ 73 ∷ 69 ∷ 78 ∷ 68 ∷ 174 ∷ 66 ∷ 96 ∷ 130 ∷ []

-- `MockImageProvider.generate`
unfoldable pub generate_image : ℕ → Text → ImageQuality → Result ImageResult
generate_image n prompt quality = ok (record {
  image_bytes = placeholder_png;
  width = 1;
  height = 1;
  model = codes "mock-image-v1";
  cost_usd = 0;
})
