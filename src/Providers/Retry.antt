-- ===== src/Providers/Retry.antt =====
-- `_call_with_retry` and `_backoff_seconds` of the two OpenAI providers,
-- backend/app/providers/llm/openai_provider.py and image/openai_provider.py, which have the same
-- loop around another reading of a response. What the OpenAI client does at an attempt is a `Reply`;
-- the jitter of the waiting times is a parameter.
pub mod Attempts
use magna_cms.Prelude.{ℕ, ◌+◌, ◌*◌, zero, suc}
use magna_cms.Exceptions.{Exc, other}
use magna_cms.Session.{Result, err}

-- An attempt: a response, one of the exceptions that are tried again, another `OpenAIError`, or an
-- exception of another kind, which leaves the loop as it is.
pub data Reply (C : Type 0) : Type 0 where
  completed : C → Reply C
  retryable : Reply C
  refused : Reply C
  crashed : Exc → Reply C

abbrev pub provider_error : Exc
provider_error = other "ProviderError"

abbrev pub retry_exhausted : Exc
retry_exhausted = other "ProviderRetryExhausted"

abbrev pub config_error : Exc
config_error = other "ProviderConfigError"

module _ {A C : Type 0} (build : C → Result A) where
  -- What an attempt makes of the whole call, if it is the last one.
  abbrev pub settled : Reply C → Result A
  settled (completed c) = build c
  settled retryable = err retry_exhausted
  settled refused = err provider_error
  settled (crashed e) = err e

abbrev pub doublings : ℕ → ℕ
doublings zero = 1
doublings (suc n) = 2 * doublings n

-- A call of the provider: its result, the number of its attempts and the milliseconds it waited.
pub record Call (A : Type 0) : Type 0 where
  pub result : Result A
  pub attempts : ℕ
  pub waited : ℕ

module _ {A C : Type 0} (build : C → Result A) (client : ℕ → Reply C) (jitter : ℕ → ℕ) where
  -- `_backoff_seconds` after so many earlier failures, in milliseconds.
  abbrev pub backoff : ℕ → ℕ
  backoff failures = 1_000 * doublings failures + jitter failures

  -- One attempt with so many left after it, after so many failures.
  abbrev pub after_reply : Reply C → ℕ → ℕ → Call A → Call A
  after_reply (completed c) left failures later = record {
    result = build c;
    attempts = 1;
    waited = 0;
  }
  after_reply refused left failures later = record {
    result = err provider_error;
    attempts = 1;
    waited = 0;
  }
  after_reply (crashed e) left failures later = record { result = err e; attempts = 1; waited = 0 }
  after_reply retryable zero failures later = record {
    result = err retry_exhausted;
    attempts = 1;
    waited = 0;
  }
  after_reply retryable (suc left) failures later = record {
    result = later.result;
    attempts = later.attempts + 1;
    waited = backoff failures + later.waited;
  }

  abbrev pub attempts_from : ℕ → ℕ → Call A
  attempts_from zero failures = record { result = err retry_exhausted; attempts = 0; waited = 0 }
  attempts_from (suc left) failures =
      after_reply (client failures) left failures (attempts_from left (failures + 1))

  -- `_call_with_retry`, of `max_retries` attempts.
  unfoldable pub call_with_retry : ℕ → Call A
  call_with_retry max_retries = attempts_from max_retries 0
