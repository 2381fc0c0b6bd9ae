-- ===== src/Images/Service.antt =====
-- backend/app/services/image_service.py
pub mod Current
pub mod Refusals
pub mod Inserted
use magna_cms.Prelude.{
  ℕ, ◌+◌, String, Text, codes, Bool, true, false, ◌&&◌, Option, none, some, List, [], ◌∷◌, ◌++◌,
  map, length, take, leb, text_eq, is_empty, strip, str_eq, not, ◌==◌, if◌then◌else◌,
}
use magna_cms.Exceptions.{
  Exc, AppException, app, app_error, dbapi_error, validation, conflict, not_found, provider,
}
use magna_cms.Models.{
  ContentPiece, GeneratedImage, ImageProvider, openai, nova_canvas, Json, null, bool, number, str,
  arr, obj, Members, end, member, Uuid, Cost, Time,
}
use magna_cms.Session.{
  World, Action, External, Result, ok, err, LlmRequest, LlmResult, pure, raise, call_llm, gets,
  catch, modify, draw, transaction_time, ◌>>=◌, ◌>>◌,
}
use magna_cms.Schemas.Values.{value_of, closed}
use magna_cms.Middleware.Scopes.{lower}
use magna_cms.Content.Repository.{get_for_update}
use magna_cms.Images.Prompt.{is_supported, build_prompt}
use magna_cms.Images.Storage.{store, public_url_for}
use magna_cms.Images.Repository
use magna_cms.Images.Repository.{mark_others_not_current}

-- `ImageQuality` and `ImageResult` of backend/app/providers/image/base.py.
pub data ImageQuality : Type 0 where
  low medium high : ImageQuality

pub record ImageResult : Type 0 where
  pub image_bytes : List ℕ
  pub width : ℕ
  pub height : ℕ
  pub model : Text
  pub cost_usd : Cost

-- What the pipeline calls: the providers, by the number of earlier calls, `json.loads` (`none` is a
-- JSONDecodeError; its other exceptions are the call's), texts of
-- exceptions and of `repr`, the UUIDs in hexadecimal and the settings.
pub record Studio : Type 0 where
  pub llm : ℕ → LlmRequest → Result LlmResult
  pub image : ℕ → Text → ImageQuality → Result ImageResult
  pub json_loads : Text → Option Json
  pub exc_text : Exc → Text
  pub repr : Text → Text
  pub hex : ℕ → Text
  pub uuid4 : ℕ → Uuid
  -- Whether another transaction holds the lock of a content piece's row.
  pub lock_held : Uuid → Bool
  -- What the driver or the database raises at the values of a new row.
  pub image_error : GeneratedImage → Option Exc
  pub openai_image_quality : Text
  pub images_cdn_base_url : Text

pub record ImagePromptResult : Type 0 where
  pub prompt : Text
  pub negative_prompt : Text
  pub style_summary : Text

-- `default_image_quality`, of the setting; whatever is neither low nor high is medium.
unfoldable pub default_image_quality : Text → ImageQuality
default_image_quality setting =
    let raw = lower setting in
    if text_eq raw (codes "low") then low else if text_eq raw (codes "high") then high else medium

prompt_fields : Option Json → Option Json → Option Json → Option ImagePromptResult
prompt_fields (some (str prompt)) (some (str negative_prompt)) (some (str style_summary)) =
    some
      (record { prompt = prompt; negative_prompt = negative_prompt; style_summary = style_summary })
prompt_fields _ _ _ = none

members_of : Option Members → Option ImagePromptResult
unfolding prompt_fields
members_of none = none
members_of (some ms) =
    prompt_fields (value_of "prompt" ms) (value_of "negative_prompt" ms)
      (value_of "style_summary" ms)

-- `ImagePromptResult.model_validate`: the three texts and, by `extra="forbid"`, nothing else.
unfoldable pub model_validate : Option Json → Option ImagePromptResult
unfolding members_of
model_validate none = none
model_validate (some j) =
    members_of (closed ("prompt" ∷ "negative_prompt" ∷ "style_summary" ∷ []) j)

abbrev pub spaced : Text → Text
spaced style = map (λ c. if c == b'_' then b' ' else c) style

-- What the pipeline goes on with where the model's answer is no valid prompt.
unfoldable pub fallback : Text → Text → ImagePromptResult
fallback topic style = record {
  prompt = codes "A " ++ spaced style ++ codes " image inspired by: " ++ strip topic ++ codes ".";
  negative_prompt = codes "text, watermark, logos, faces";
  style_summary = spaced style;
}

abbrev pub or_fallback : Option ImagePromptResult → ImagePromptResult → ImagePromptResult
or_fallback none d = d
or_fallback (some payload) d = payload

-- The negatives go into the prompt as a clause of their own.
unfoldable pub positive_prompt : ImagePromptResult → Text
positive_prompt payload =
    if is_empty (strip payload.negative_prompt)
    then payload.prompt
    else payload.prompt ++ codes "\n\nAvoid: " ++ strip payload.negative_prompt

unfoldable pub image_provider_enum : Text → ImageProvider
image_provider_enum model =
    if text_eq (take 11 model) (codes "nova-canvas") then nova_canvas else openai

abbrev pub in_progress : Exc
in_progress = app (
    app_error conflict "An image is already being generated for this content piece."
      "IMAGE_GENERATION_IN_PROGRESS")

abbrev pub not_ready : Exc
not_ready = app (
    app_error conflict "Content has no rendered text to base an image on."
      "CONTENT_NOT_READY_FOR_IMAGE")

abbrev pub no_content : Exc
no_content = app (app_error not_found "Content not found." "CONTENT_NOT_FOUND")

on_lock_error : Exc → Action (Option ContentPiece)
on_lock_error (dbapi_error sqlstate) =
    if str_eq sqlstate "55P03" then raise in_progress else raise (dbapi_error sqlstate)
on_lock_error e = raise e

unfoldable pub require_ready : Option ContentPiece → Action ContentPiece
require_ready none = raise no_content
require_ready (some piece) =
    if is_empty (strip piece.rendered_text) then raise not_ready else pure piece

-- `content_summary` is cut to 4000 characters.
unfoldable pub content_summary : ContentPiece → Text
content_summary piece =
    let summary = strip piece.rendered_text in
    if leb (length summary) 4_000 then summary else take 4_000 summary

unfoldable pub prompt_request : ContentPiece → Text → LlmRequest
unfolding content_summary
prompt_request piece style =
    let (system, user) = build_prompt (content_summary piece) style in
    record {
      system_prompt = system;
      user_prompt = user;
      strict = true;
      content_type = "image_prompt";
    }

-- `except ProviderError`
abbrev is_provider : Exc → Bool
is_provider (app a) = elim a.kind [ provider ↦ true | _ ↦ false ]
is_provider _ = false

module _ (s : Studio) where
  abbrev pub unknown_style : Text → Exc
  unknown_style style = app (record (app_error validation "" "UNSUPPORTED_IMAGE_STYLE") {
    message =
        codes "Unknown style "
        ++ s.repr style
        ++ codes ". Pick one of: photorealistic, illustration, minimalist, 3d_render, "
        ++ codes "watercolor, cinematic";
  })

  on_image_error : Exc → Action ImageResult
  on_image_error e = raise (
      if is_provider e
      then e
      else (app (record (app_error provider "" "PROVIDER_ERROR") {
        message = codes "Image provider failed: " ++ s.exc_text e;
      })))

  abbrev pub ask : LlmRequest → Action LlmResult
  ask = call_llm s.llm

  abbrev pub call_image : Text → Action ImageResult
  call_image prompt w = (
    s.image (length w.image_calls) prompt (default_image_quality s.openai_image_quality),
    record w { image_calls = w.image_calls ++ prompt ∷ [] },
  )

  unfoldable pub payload_of : ContentPiece → Text → LlmResult → ImagePromptResult
  payload_of piece style answer =
      or_fallback (model_validate (s.json_loads answer.raw_text)) (fallback piece.topic style)

  -- `_build_image_prompt`: the payload and the cost of the call.
  unfoldable pub build_image_prompt : ContentPiece → Text → Action (ImagePromptResult × Cost)
  unfolding payload_of
  build_image_prompt piece style = do
    answer ← ask (prompt_request piece style)
    pure (payload_of piece style answer, answer.cost_usd)

  unfoldable pub find_ready : Uuid → Uuid → Text → Action ContentPiece
  unfolding on_lock_error
  find_ready user_id content_id style =
      if not (is_supported style) then raise (unknown_style style) else do
        piece ← catch (get_for_update s.lock_held content_id user_id) on_lock_error
        require_ready piece

  abbrev pub new_image :
      Uuid
      → Time
      → ContentPiece
      → Text
      → ImagePromptResult
      → Cost
      → ImageResult
      → Text
      → GeneratedImage
  new_image id at piece style payload cost image s3_key = record {
    id = id;
    created_at = at;
    updated_at = at;
    content_piece_id = piece.id;
    image_prompt = positive_prompt payload;
    negative_prompt =
        if is_empty payload.negative_prompt then none else some payload.negative_prompt;
    style = style;
    provider = image_provider_enum image.model;
    model_id = image.model;
    width = image.width;
    height = image.height;
    s3_key = s3_key;
    cdn_url = public_url_for s.images_cdn_base_url s3_key;
    cost_usd = cost + image.cost_usd;
    is_current = true;
  }

  -- The rows of a finished image.
  unfoldable pub record_image :
      ContentPiece → Text → ImagePromptResult → Cost → ImageResult → Action GeneratedImage
  record_image piece style payload cost image = do
    s3_key ← store s.hex
    mark_others_not_current piece.id
    n ← draw
    at ← transaction_time
    Repository.create s.image_error (new_image (s.uuid4 n) at piece style payload cost image s3_key)

  unfoldable pub generate_for_content : Uuid → Uuid → Text → Action GeneratedImage
  unfolding on_image_error
  generate_for_content user_id content_id style = do
    piece ← find_ready user_id content_id style
    (payload, cost) ← build_image_prompt piece style
    image ← catch (call_image (positive_prompt payload)) on_image_error
    record_image piece style payload cost image
