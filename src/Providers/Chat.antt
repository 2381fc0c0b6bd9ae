-- ===== src/Providers/Chat.antt =====
-- backend/app/providers/llm/openai_provider.py: what an answer is read as. Costs are in units of
-- 1e-8 USD, so that the price of a token is a number.
pub mod Requests
use magna_cms.Prelude.{
  ℕ, ◌+◌, ◌*◌, zero, suc, String, Text, codes, Bool, true, false, ◌&&◌, ◌||◌, not, Option, none,
  some, List, [], ◌∷◌, get_or, str_eq, if◌then◌else◌,
}
use magna_cms.Exceptions.{Exc, other}
use magna_cms.Models.{Cost}
use magna_cms.Providers.Retry.{Reply, call_with_retry, provider_error, config_error}
use magna_cms.Session.{Result, ok, err, LlmRequest, LlmResult}

pub record Choice : Type 0 where
  pub content : Option Text
  pub finish_reason : Option String

-- What the provider reads of a response: its choices and its usage.
pub record Completion : Type 0 where
  pub choices : List Choice
  pub model : String
  pub prompt_tokens : Option ℕ
  pub completion_tokens : Option ℕ

-- The prices of a prompt token and of a completion token, in units of 1e-8 USD.
unfoldable pub price : String → Option (ℕ × ℕ)
price model =
    if str_eq model "gpt-5.4-mini-2026-03-17" || str_eq model "gpt-5.4-mini"
    then some (15, 60)
    else none

-- `_compute_cost_usd`; the rounding of floats is left out.
abbrev pub cost_at : Bool → Option (ℕ × ℕ) → ℕ → ℕ → Result Cost
cost_at is_local (some (i, o)) input_tokens output_tokens =
    ok (input_tokens * i + output_tokens * o)
cost_at is_local none input_tokens output_tokens = if is_local then ok 0 else err config_error

unfoldable pub compute_cost_usd : Bool → String → ℕ → ℕ → Result Cost
unfolding price
compute_cost_usd is_local model input_tokens output_tokens =
    cost_at is_local (price model) input_tokens output_tokens

-- `finish_reason not in (None, "stop")`
abbrev pub is_incomplete : Option String → Bool
is_incomplete none = false
is_incomplete (some reason) = not (str_eq reason "stop")

abbrev pub result_with : Bool → Completion → Choice → Result Cost → Result LlmResult
result_with strict c choice (err e) = err e
result_with strict c choice (ok cost_usd) =
    if strict && is_incomplete choice.finish_reason
    then err provider_error
    else ok (record {
      raw_text = get_or choice.content (codes "");
      model = c.model;
      input_tokens = get_or c.prompt_tokens 0;
      output_tokens = get_or c.completion_tokens 0;
      cost_usd = cost_usd;
    })

-- What comes after `response.choices[0]`.
abbrev pub of_choices : Bool → Bool → Completion → List Choice → Result LlmResult
of_choices is_local strict c [] = err (other "IndexError")
of_choices is_local strict c (choice ∷ choices) =
    result_with strict c choice
      (compute_cost_usd is_local c.model (get_or c.prompt_tokens 0) (get_or c.completion_tokens 0))

-- `_build_result`
unfoldable pub build_result : Bool → Bool → Completion → Result LlmResult
unfolding compute_cost_usd
build_result is_local strict c = of_choices is_local strict c c.choices

-- `OpenAIChatProvider.generate`: the client answers the attempts of each call.
unfoldable pub generate :
    Bool → ℕ → (ℕ → ℕ) → (ℕ → LlmRequest → ℕ → Reply Completion) → ℕ → LlmRequest → Result LlmResult
unfolding build_result call_with_retry
generate is_local max_retries jitter client n request =
    (call_with_retry (build_result is_local request.strict) (client n request) jitter
      max_retries).result
