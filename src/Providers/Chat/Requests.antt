-- ===== src/Providers/Chat/Requests.antt =====
-- What a failing model means for a request.
use magna_cms.Prelude.{ℕ, ◌≡◌, refl, Text, Bool, true, Option, [], ◌∷◌, ◌++◌, length}
use magna_cms.Exceptions.{handle_exception, unhandled_exception_handler}
use magna_cms.Models.{Json, Uuid}
use magna_cms.Session.{World, External, Result, ok, err, LlmRequest, LlmResult, get_db_session}
use magna_cms.Schemas.Content.{GenerateRequest}
use magna_cms.Content.Service as Service
use magna_cms.Content.Service.{first_request, maybe_brand_voice_block}
use magna_cms.Content.Routes as Routes
use magna_cms.Providers.Chat.{Completion, generate, build_result}
use magna_cms.Providers.Retry.{Reply, call_with_retry, retry_exhausted}
use magna_cms.Providers.Retry.Attempts.{all_retryable, exhausted}

module _ (is_local : Bool) (max_retries : ℕ) (jitter : ℕ → ℕ)
    (client : ℕ → LlmRequest → ℕ → Reply Completion) (x : External)
    (json_loads : Text → Option Json) (user_id : Uuid) (request : GenerateRequest)
    (block : Option Text) (w : World) where
  -- The model that the service calls.
  abbrev pub model : ℕ → LlmRequest → Result LlmResult
  model = generate is_local max_retries jitter client

  -- The world in which the session of the request begins.
  abbrev pub begun : World
  begun = record w { db = w.committed }

  -- A user's POST of a request whose brand voice, if it names one, is found, and for which every
  -- attempt of the model's first call fails in a way that is tried again: the exception leaves the
  -- handler after that one call, every row is as it was committed, and the response is 500
  -- INTERNAL_ERROR and not PROVIDER_ERROR.
  pub generate-exhausted :
      (request_id : Option Text)
      → maybe_brand_voice_block user_id request.brand_voice_id begun ≡ (ok block, begun)
      → all_retryable (client (length w.llm_calls) (first_request request block)) 0 max_retries
        ≡ true
      → (v : World) × (get_db_session (Routes.generate x model json_loads user_id request) w
          ≡ (err retry_exhausted, v))
        × (v.db ≡ w.committed)
        × (v.committed ≡ w.committed)
        × (v.llm_calls ≡ w.llm_calls ++ first_request request block ∷ [])
        × ((handle_exception request_id retry_exhausted).status ≡ 500)
        × ((handle_exception request_id retry_exhausted).code ≡ "INTERNAL_ERROR")
  unfolding get_db_session Routes.generate Service.generate generate call_with_retry
      handle_exception unhandled_exception_handler
  generate-exhausted request_id b failing =
      let first = first_request request block in
      let e =
        exhausted (build_result is_local first.strict) (client (length w.llm_calls) first) jitter
          max_retries 0 failing in
      (
        record begun { llm_calls = w.llm_calls ++ first ∷ [] },
        rw (b, e) refl,
        refl,
        refl,
        refl,
        refl,
        refl,
      )
