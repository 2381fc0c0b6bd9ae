-- ===== src/Content/Service.antt =====
-- backend/app/services/content_service.py: one answer of the model, a second one if the first is
-- invalid, and its raw text if both are.
pub mod Stages
pub mod Stored
use magna_cms.Prelude.{
  ℕ, ◌+◌, String, Text, codes, Bool, true, false, Option, none, some, List, [], ◌∷◌, ◌++◌,
}
use magna_cms.Exceptions.{Exc, app, app_error, not_found, other}
use magna_cms.Models.{
  ContentPiece, ContentType, blog_post, linkedin_post, ad_copy, email, ResultParseStatus, parsed,
  retried, failed, Json, Uuid, Cost, Time, BrandVoice,
}
use magna_cms.Session.{
  World, Action, External, Result, LlmRequest, LlmResult, pure, raise, call_llm, draw,
  transaction_time, ◌>>=◌, ◌>>◌,
}
use magna_cms.Session.Usage.{Totals, total_of, add_total}
use magna_cms.Schemas.Content.{
  GenerateRequest, ContentResult, blog_result, linkedin_result, email_result, ad_copy_result,
  model_validate, model_dump,
}
use magna_cms.Renderers.Words.{word_count}
use magna_cms.Renderers.Layouts.{render_blog_post, render_linkedin_post, render_email}
use magna_cms.Renderers.AdCopy.{render_ad_copy}
use magna_cms.Prompts.BlogPost
use magna_cms.Prompts.LinkedInPost
use magna_cms.Prompts.Email
use magna_cms.Prompts.AdCopy
use magna_cms.BrandVoices.Repository as Voices
use magna_cms.BrandVoices.Block.{render_brand_voice_block}
use magna_cms.Content.Repository as Pieces

-- What a content type brings along; its model is `Schemas.Content.model_validate`.
pub record ContentTypeBundle : Type 0 where
  pub value : String
  pub prompt_version : String
  pub system_prompt : Text
  pub build_prompt : Text → Option Text → Option Text → Option Text → Text
  pub corrective_retry_instruction : Text

-- `_REGISTRY`
unfoldable pub registry : ContentType → ContentTypeBundle
registry blog_post = record {
  value = "blog_post";
  prompt_version = BlogPost.prompt_version;
  system_prompt = BlogPost.system_prompt;
  build_prompt = BlogPost.build_prompt;
  corrective_retry_instruction = BlogPost.corrective_retry_instruction;
}
registry linkedin_post = record {
  value = "linkedin_post";
  prompt_version = LinkedInPost.prompt_version;
  system_prompt = LinkedInPost.system_prompt;
  build_prompt = LinkedInPost.build_prompt;
  corrective_retry_instruction = LinkedInPost.corrective_retry_instruction;
}
registry email = record {
  value = "email";
  prompt_version = Email.prompt_version;
  system_prompt = Email.system_prompt;
  build_prompt = Email.build_prompt;
  corrective_retry_instruction = Email.corrective_retry_instruction;
}
registry ad_copy = record {
  value = "ad_copy";
  prompt_version = AdCopy.prompt_version;
  system_prompt = AdCopy.system_prompt;
  build_prompt = AdCopy.build_prompt;
  corrective_retry_instruction = AdCopy.corrective_retry_instruction;
}

-- The bundle's renderer.
unfoldable pub render : ContentResult → Text
render (blog_result r) = render_blog_post r
render (linkedin_result r) = render_linkedin_post r
render (email_result r) = render_email r
render (ad_copy_result r) = render_ad_copy r

-- `_ParseOutcome`
pub record ParseOutcome : Type 0 where
  pub result : Option ContentResult
  pub rendered_text : Text
  pub status : ResultParseStatus

abbrev pub outcome_of : Text → ResultParseStatus → Option ContentResult → ParseOutcome
outcome_of raw success none = record { result = none; rendered_text = raw; status = failed }
outcome_of raw success (some r) = record {
  result = some r;
  rendered_text = codes "";
  status = success;
}

-- The request of the first attempt, under the strict schema.
unfoldable pub first_request : GenerateRequest → Option Text → LlmRequest
first_request request brand_voice_block =
    let bundle = registry request.content_type in
    record {
      system_prompt = bundle.system_prompt;
      user_prompt =
          bundle.build_prompt request.topic request.tone request.target_audience brand_voice_block;
      strict = true;
      content_type = bundle.value;
    }

-- `_call_corrective_retry`'s request: free of the schema, with the invalid answer in the prompt.
unfoldable pub retry_request : ContentType → LlmRequest → Text → LlmRequest
retry_request t first previous_raw = record first {
  user_prompt =
      first.user_prompt
      ++ codes "\n\nPrevious response (invalid):\n"
      ++ previous_raw
      ++ codes "\n\n"
      ++ (registry t).corrective_retry_instruction;
  strict = false;
}

abbrev pub brand_voice_not_found : Exc
brand_voice_not_found = app (app_error not_found "Brand voice not found." "BRAND_VOICE_NOT_FOUND")

unfoldable pub block_of : Option BrandVoice → Action (Option Text)
block_of none = raise brand_voice_not_found
block_of (some voice) = pure (some (render_brand_voice_block voice))

unfoldable pub maybe_brand_voice_block : Uuid → Option Uuid → Action (Option Text)
maybe_brand_voice_block user_id none = pure none
maybe_brand_voice_block user_id (some brand_voice_id) = do
  voice ← Voices.get_for_user brand_voice_id user_id
  block_of voice

abbrev pub result_jsonb : ParseOutcome → Option Json
result_jsonb outcome = elim outcome.result [ none ↦ none | some r ↦ some (model_dump r) ]

abbrev pub final_text : ParseOutcome → Text
final_text outcome = elim outcome.result [ none ↦ outcome.rendered_text | some r ↦ render r ]

-- The stored result, read for the wire; a result that is no valid one of its type is a
-- `ValidationError`.
unfoldable pub validated : Option ContentResult → Action (Option ContentResult)
validated none = raise (other "ValidationError")
validated (some r) = pure (some r)

unfoldable pub project_result : ContentType → Option Json → Action (Option ContentResult)
unfolding validated
project_result t none = pure none
project_result t (some raw) = validated (model_validate t raw)

-- The parse of an answer: a JSONDecodeError of `json.loads`, which is `none`, and an invalid result
-- are the same. Its other exceptions are the call's.
abbrev pub read_result : ContentType → Option Json → Option ContentResult
read_result t none = none
read_result t (some payload) = model_validate t payload

abbrev pub new_piece :
    Uuid
    → Time
    → Uuid
    → GenerateRequest
    → LlmRequest
    → LlmResult
    → ParseOutcome
    → Totals
    → ContentPiece
new_piece id at user_id request first attempt1 outcome totals = record {
  id = id;
  created_at = at;
  updated_at = at;
  deleted_at = none;
  user_id = user_id;
  content_type = request.content_type;
  topic = request.topic;
  tone = request.tone;
  target_audience = request.target_audience;
  brand_voice_id = request.brand_voice_id;
  prompt_version = (registry request.content_type).prompt_version;
  system_prompt_snapshot = first.system_prompt;
  user_prompt_snapshot = first.user_prompt;
  result = result_jsonb outcome;
  rendered_text = final_text outcome;
  result_parse_status = outcome.status;
  word_count = some (word_count (final_text outcome));
  model_id = attempt1.model;
  input_tokens = totals.input_tokens;
  output_tokens = totals.output_tokens;
  cost_usd = totals.cost_usd;
}

module _ (x : External) (llm : ℕ → LlmRequest → Result LlmResult)
    (json_loads : Text → Option Json) where
  -- `_try_parse`
  unfoldable pub try_parse : ContentType → Text → ResultParseStatus → ParseOutcome
  try_parse t raw success = outcome_of raw success (read_result t (json_loads raw))

  -- The attempts after the first answer: none if it was valid.
  unfoldable pub settle_outcome :
      ContentType → LlmRequest → LlmResult → Option ContentResult → Action (ParseOutcome × Totals)
  unfolding try_parse
  settle_outcome t first attempt1 (some r) =
      pure (outcome_of attempt1.raw_text parsed (some r), total_of attempt1)
  settle_outcome t first attempt1 none = do
    attempt2 ← call_llm llm (retry_request t first attempt1.raw_text)
    pure (try_parse t attempt2.raw_text retried, add_total (total_of attempt1) attempt2)

  unfoldable pub persist :
      Uuid → GenerateRequest → LlmRequest → LlmResult → ParseOutcome → Totals → Action ContentPiece
  persist user_id request first attempt1 outcome totals = do
    n ← draw
    at ← transaction_time
    Pieces.create x (new_piece (x.uuid4 n) at user_id request first attempt1 outcome totals)

  unfoldable pub generate : Uuid → GenerateRequest → Action ContentPiece
  generate user_id request = do
    block ← maybe_brand_voice_block user_id request.brand_voice_id
    let first = first_request request block
    attempt1 ← call_llm llm first
    let outcome = try_parse request.content_type attempt1.raw_text parsed
    (settled, totals) ← settle_outcome request.content_type first attempt1 outcome.result
    persist user_id request first attempt1 settled totals
