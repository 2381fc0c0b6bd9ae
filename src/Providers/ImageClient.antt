-- ===== src/Providers/ImageClient.antt =====
-- backend/app/providers/image/openai_provider.py: the images of OpenAI, by the attempts of
-- Providers/Retry. `base64.b64decode` is a parameter, of which `none` is its exception. Costs are in
-- units of 1e-8 USD, as those of the model.
use magna_cms.Prelude.{
  ℕ, Text, codes, text_eq, Bool, Option, none, some, List, [], ◌∷◌, is_empty, if◌then◌else◌,
}
use magna_cms.Exceptions.{other}
use magna_cms.Models.{Cost}
use magna_cms.Session.{Result, ok, err}
use magna_cms.Images.Service.{ImageQuality, low, medium, high, ImageResult}
use magna_cms.Providers.Retry.{Reply, call_with_retry, provider_error, config_error}

-- `request_kwargs`; one image is asked for.
pub record ImageRequest : Type 0 where
  pub model : Text
  pub prompt : Text
  pub width : ℕ
  pub height : ℕ
  pub quality : ImageQuality

-- `response.data`: the `b64_json` of each image.
abbrev pub ImageData : Type 0
ImageData = List (Option Text)

-- `_PRICE_PER_IMAGE`
unfoldable pub price_per_image : Text → ImageQuality → Option Cost
price_per_image model quality =
    if text_eq model (codes "gpt-image-1")
    then some (elim quality [ low ↦ 1_100_000 | medium ↦ 4_200_000 | high ↦ 16_700_000 ])
    else none

abbrev pub cost_at : Bool → Option Cost → Result Cost
cost_at is_local (some price) = ok price
cost_at is_local none = if is_local then ok 0 else err config_error

-- `_compute_cost_usd`
unfoldable pub compute_cost_usd : Bool → Text → ImageQuality → Result Cost
unfolding price_per_image
compute_cost_usd is_local model quality = cost_at is_local (price_per_image model quality)

module _ (b64decode : Text → Option (List ℕ)) (is_local : Bool) (request : ImageRequest) where
  abbrev pub result_with : List ℕ → Result Cost → Result ImageResult
  result_with image_bytes (err e) = err e
  result_with image_bytes (ok cost_usd) = ok (record {
    image_bytes = image_bytes;
    width = request.width;
    height = request.height;
    model = request.model;
    cost_usd = cost_usd;
  })

  abbrev pub decoded : Option (List ℕ) → Result ImageResult
  decoded none = err (other "binascii.Error")
  decoded (some image_bytes) =
      result_with image_bytes (compute_cost_usd is_local request.model request.quality)

  abbrev pub payload_of : Option Text → Result ImageResult
  payload_of none = err provider_error
  payload_of (some b64) = if is_empty b64 then err provider_error else decoded (b64decode b64)

  -- `_build_result`
  unfoldable pub build_result : ImageData → Result ImageResult
  unfolding compute_cost_usd
  build_result [] = err provider_error
  build_result (b64 ∷ others) = payload_of b64

abbrev pub request_of : Text → Text → ImageQuality → ImageRequest
request_of model prompt quality = record {
  model = model;
  prompt = prompt;
  width = 1024;
  height = 1024;
  quality = quality;
}

-- `OpenAIImageProvider.generate`, at the default size.
unfoldable pub generate :
    (Text → Option (List ℕ))
    → Bool
    → ℕ
    → (ℕ → ℕ)
    → Text
    → (ℕ → ImageRequest → ℕ → Reply ImageData)
    → ℕ
    → Text
    → ImageQuality
    → Result ImageResult
unfolding build_result call_with_retry
generate b64decode is_local max_retries jitter model client n prompt quality =
    let request = request_of model prompt quality in
    (call_with_retry (build_result b64decode is_local request) (client n request) jitter
      max_retries).result
