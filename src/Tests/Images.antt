-- ===== src/Tests/Images.antt =====
-- The image pipeline at a concrete piece, with a model that answers no JSON.
use magna_cms.Prelude.{
  ◌+◌, ◌≡◌, ◌≢◌, refl, codes, Bool, false, none, some, [], select, ◌∷◌, strip, lstrip, rstrip,
  is_space,
}
use magna_cms.Models.{GeneratedImage, Uuid}
use magna_cms.Session.{World, LlmResult, ok}
use magna_cms.Images.Prompt.{is_supported, style_guide}
use magna_cms.Images.Repository.{images, image_of, get_current_for_content}
use magna_cms.Images.Service.{Studio, ImageResult, generate_for_content}
use magna_cms.Images.Service.Current.{generate_for_content-current}
use magna_cms.Tests.Content.{post, desk}

abbrev answer : LlmResult
answer = record {
  raw_text = codes "Sorry";
  model = "mock";
  input_tokens = 1;
  output_tokens = 1;
  cost_usd = 2;
}

abbrev drawn : ImageResult
drawn = record {
  image_bytes = [];
  width = 1_024;
  height = 1_024;
  model = codes "mock-image-v1";
  cost_usd = 40;
}

abbrev studio : Bool → Studio
studio held = record {
  llm = λ n r. ok answer;
  image = λ n prompt quality. ok drawn;
  json_loads = λ t. none;
  exc_text = λ e. codes "failed";
  repr = λ t. t;
  hex = λ n. codes "ab";
  uuid4 = λ n. n + 100;
  lock_held = λ id. held;
  image_error = λ i. none;
  openai_image_quality = codes "low";
  images_cdn_base_url = codes "https://cdn.test/";
}

generate_for_content-current_example :
    (made_image : GeneratedImage) × (v : World) × (generate_for_content
        (studio false)
        7
        2
        (codes "watercolor")
        desk
      ≡ (ok made_image, v))
    × (get_current_for_content 2 v ≡ (ok (some made_image), v))
    × (images v ≡ made_image ∷ [])
    × ((other : Uuid)
        → other ≢ 2
        → select (image_of other) (images v) ≡ select (image_of other) (images desk))
unfolding is_supported style_guide strip lstrip rstrip is_space
generate_for_content-current_example =
    generate_for_content-current (studio false) 2 7 (codes "watercolor") desk (post 2 30) answer
      drawn refl refl refl refl refl refl refl refl refl
