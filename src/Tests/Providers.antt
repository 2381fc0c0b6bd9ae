-- ===== src/Tests/Providers.antt =====
-- Calls of concrete models.
use magna_cms.Prelude.{
  ℕ, Text, Option, zero, suc, ◌≡◌, refl, true, false, codes, none, some, [], ◌∷◌, ◌++◌,
}
use magna_cms.Exceptions.{handle_exception}
use magna_cms.Session.{World, ok, err, LlmRequest, get_db_session}
use magna_cms.Content.Routes as Routes
use magna_cms.Content.Service.{first_request, maybe_brand_voice_block}
use magna_cms.Providers.Chat.{Completion, build_result, compute_cost_usd, price}
use magna_cms.Providers.Retry.{Reply, completed, retryable, call_with_retry, retry_exhausted}
use magna_cms.Providers.Retry.Attempts.{IsOutcome, call_with_retry_ends}
use magna_cms.Providers.Chat.Requests.{model, generate-exhausted}
use magna_cms.Providers.Mock as Mock
use magna_cms.Providers.Mock.Runs.{answer_of, generate-mock}
use magna_cms.Providers.Factory.{Sdk}
use magna_cms.Providers.Factory.Modes.{IsProvided, providers_of_accepted}
use magna_cms.Models.{Json, ContentPiece, email, parsed}
use magna_cms.Content.Service as Service
use magna_cms.Content.Repository.{pieces}
use magna_cms.Tests.Config.{deploy, decoders, decoders-AreDecoders, deploy-accepted}
use magna_cms.Tests.World.{external, world}
use magna_cms.Tests.Generation.{about_tea, json_loads}

abbrev completion : Completion
completion = record {
  choices = record { content = some (codes "tea"); finish_reason = some "stop" } ∷ [];
  model = "gpt-5.4-mini";
  prompt_tokens = some 100;
  completion_tokens = some 10;
}

-- A client that fails twice.
abbrev client : ℕ → Reply Completion
client zero = retryable
client (suc zero) = retryable
client (suc (suc n)) = completed completion

cost_of_tea : compute_cost_usd false "gpt-5.4-mini" 100 10 ≡ ok 2100
unfolding compute_cost_usd price
cost_of_tea = refl

three_attempts : (call_with_retry (build_result false true) client (λ k. 0) 3).waited ≡ 3_000
unfolding call_with_retry
three_attempts = refl

call_with_retry_ends_example :
    IsOutcome
      (build_result false true)
      client
      0
      3
      (call_with_retry (build_result false true) client (λ k. 0) 3)
call_with_retry_ends_example = call_with_retry_ends (build_result false true) client (λ k. 0) 3

-- A client that always fails.
abbrev down : ℕ → LlmRequest → ℕ → Reply Completion
down n r k = retryable

generate-exhausted_example :
    (v : World) × (get_db_session
        (Routes.generate external
          (model false 3 (λ k. 0) down external json_loads 7 about_tea none (world []))
          json_loads
          7
          about_tea)
        (world [])
      ≡ (err retry_exhausted, v))
    × (v.db ≡ (world []).committed)
    × (v.committed ≡ (world []).committed)
    × (v.llm_calls ≡ (world []).llm_calls ++ first_request about_tea none ∷ [])
    × ((handle_exception none retry_exhausted).status ≡ 500)
    × ((handle_exception none retry_exhausted).code ≡ "INTERNAL_ERROR")
unfolding maybe_brand_voice_block
generate-exhausted_example =
    generate-exhausted false 3 (λ k. 0) down external json_loads 7 about_tea none (world []) none
      refl refl

-- The mock's answer to a letter, read by a decoder that knows it.
abbrev json_of_letter : Text → Option Json
json_of_letter t = some (answer_of email)

abbrev here : World
here = world []

generate-mock_example :
    (piece : ContentPiece) × (v : World) × (Service.generate external
        (Mock.generate (λ j. codes "{}"))
        json_of_letter
        7
        about_tea
        here
      ≡ (ok piece, v))
    × (pieces v ≡ pieces here ++ piece ∷ [])
    × (v.llm_calls ≡ here.llm_calls ++ first_request about_tea none ∷ [])
    × (piece.result_parse_status ≡ parsed)
    × (piece.cost_usd ≡ 0)
unfolding maybe_brand_voice_block
generate-mock_example =
    generate-mock external (λ j. codes "{}") json_of_letter 7 about_tea none here refl
      (refl, refl, refl) (λ p h. refl)

abbrev sdk : Sdk
sdk = record {
  chat_completions = λ key n r k. retryable;
  images = λ key n r k. retryable;
  jitter = λ k. 0;
  json_dumps = λ j. codes "{}";
  b64decode = λ t. some [];
  openai_max_retries = 3;
  openai_image_model = codes "gpt-image-1";
}

providers_of_accepted_example : IsProvided sdk deploy
providers_of_accepted_example =
    providers_of_accepted sdk deploy decoders decoders-AreDecoders refl deploy-accepted
