-- ===== src/Providers/Factory.antt =====
-- backend/app/providers/factory.py, the constructors of the OpenAI providers, and the stubs of
-- bedrock.py: which providers the settings give, and their cache. `AsyncOpenAI` is a parameter: from
-- a key, what it answers to the attempts of each call.
pub mod Modes
use magna_cms.Prelude.{ℕ, Text, Bool, Option, none, some, List}
use magna_cms.Models.{Json}
use magna_cms.Session.{Result, ok, err, LlmRequest, LlmResult}
use magna_cms.Config.{AiProviderMode, openai, bedrock, mock, Settings, is_local}
use magna_cms.Images.Service.{ImageQuality, ImageResult}
use magna_cms.Providers.Retry.{Reply, config_error}
use magna_cms.Providers.Chat as Chat
use magna_cms.Providers.Chat.{Completion}
use magna_cms.Providers.ImageClient as ImageClient
use magna_cms.Providers.ImageClient.{ImageRequest, ImageData}
use magna_cms.Providers.Mock as Mock

abbrev pub LlmProvider : Type 0
LlmProvider = ℕ → LlmRequest → Result LlmResult

abbrev pub ImageProvider : Type 0
ImageProvider = ℕ → Text → ImageQuality → Result ImageResult

-- What the providers take from outside, and the settings of the retries and of the image model.
pub record Sdk : Type 0 where
  pub chat_completions : Text → ℕ → LlmRequest → ℕ → Reply Completion
  pub images : Text → ℕ → ImageRequest → ℕ → Reply ImageData
  pub jitter : ℕ → ℕ
  pub json_dumps : Json → Text
  pub b64decode : Text → Option (List ℕ)
  pub openai_max_retries : ℕ
  pub openai_image_model : Text

module _ (sdk : Sdk) (settings : Settings) where
  -- `OpenAIChatProvider.__init__`
  abbrev pub chat_provider : Option Text → Result LlmProvider
  chat_provider none = err config_error
  chat_provider (some api_key) = ok (
      Chat.generate (is_local settings.environment) sdk.openai_max_retries sdk.jitter
        (sdk.chat_completions api_key))

  -- `OpenAIImageProvider.__init__`
  abbrev pub openai_image_provider : Option Text → Result ImageProvider
  openai_image_provider none = err config_error
  openai_image_provider (some api_key) = ok (
      ImageClient.generate sdk.b64decode (is_local settings.environment) sdk.openai_max_retries
        sdk.jitter sdk.openai_image_model (sdk.images api_key))

  -- `_build_llm_provider`
  unfoldable pub build_llm_provider : AiProviderMode → Result LlmProvider
  build_llm_provider openai = chat_provider settings.openai_api_key
  build_llm_provider mock = ok (Mock.generate sdk.json_dumps)
  build_llm_provider bedrock = err config_error

  -- `_build_image_provider`
  unfoldable pub build_image_provider : AiProviderMode → Result ImageProvider
  build_image_provider openai = openai_image_provider settings.openai_api_key
  build_image_provider mock = ok Mock.generate_image
  build_image_provider bedrock = err config_error

  abbrev pub cache_built : {P : Type 0} → Result P → Result P × Option P
  cache_built (ok provider) = (ok provider, some provider)
  cache_built (err e) = (err e, none)

  -- `get_llm_provider`, with the module's variable `_llm_provider`.
  unfoldable pub get_llm_provider : Option LlmProvider → Result LlmProvider × Option LlmProvider
  unfolding build_llm_provider
  get_llm_provider (some cached) = (ok cached, some cached)
  get_llm_provider none = cache_built (build_llm_provider settings.ai_provider_mode)

  -- `get_image_provider`
  unfoldable pub get_image_provider :
      Option ImageProvider → Result ImageProvider × Option ImageProvider
  unfolding build_image_provider
  get_image_provider (some cached) = (ok cached, some cached)
  get_image_provider none = cache_built (build_image_provider settings.ai_provider_mode)
