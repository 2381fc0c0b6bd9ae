-- ===== src/Pipeline.antt =====
-- The request pipeline: `create_app` of backend/app/main.py, and the `__call__` of each middleware
-- under backend/app/middleware around the application that it wraps. An application answers a
-- request in a process: what it sends, the exception that leaves it, and the process afterwards.
-- What the routes keep beside that is a parameter `S`. The framework's own layers (CORS, the one
-- that answers registered exceptions, and the outermost one that answers all others), the renderer
-- of JSON and three functions of Python are parameters. The duration of a request is left out.
pub mod Guarded
pub mod Logged
pub mod Unhandled
use magna_cms.Prelude.{
  ℕ, Text, codes, Bool, true, false, not, Option, none, some, List, [], ◌∷◌, ◌++◌, map, length,
  if◌then◌else◌,
}
use magna_cms.Models.{Json, str, number, obj, Members, end, member}
use magna_cms.Exceptions.{
  Exc, app, http_exception, request_validation_error, other, ErrorResponse, envelope, body_of,
  app_exception_handler, http_exception_handler, validation_exception_handler,
  unhandled_exception_handler,
}
use magna_cms.Config.{Environment}
use magna_cms.Middleware.Scopes.{Scope, Header}
use magna_cms.Middleware.Csrf.{Outcome, forwarded, rejected, csrf}
use magna_cms.Middleware.RequestId.{
  Message, response_start, other_message, request_id, wrapped_send,
}
use magna_cms.Middleware.SecurityHeaders.{send_with_headers}
use magna_cms.RateLimit
use magna_cms.RateLimit.{
  Buckets, Verdict, passed, limited, index_error, rate_limit, auth_rate_limits, rate_limit_patterns,
}

-- A request: its scope and its TCP peer, the clock when the rate limiter reads it, and the text of
-- the UUID that is made if the request brings no id.
pub record Request : Type 0 where
  pub scope : Scope
  pub client : Option Text
  pub now : ℕ
  pub fresh_id : Text

pub data AccessEvent : Type 0 where
  request_completed : Text → Text → ℕ → AccessEvent
  request_failed : Text → Text → AccessEvent

-- A line of the access log, with the id that `_add_request_context` attaches.
pub record AccessLine : Type 0 where
  pub request_id : Option Text
  pub event : AccessEvent

pub record Process (S : Type 0) : Type 0 where
  -- The context variable `_request_id_var`, as the current task sees it.
  pub request_id_var : Option Text
  pub buckets : Buckets
  pub access_log : List AccessLine
  pub rest : S

pub record Answer (S : Type 0) : Type 0 where
  pub sent : List Message
  pub raised : Option Exc
  pub process : Process S

abbrev pub App : Type 0 → Type 0
App S = Request → Process S → Answer S

-- `json.dumps`, `repr` of a text, and `str` of a number.
pub record Python : Type 0 where
  pub json_dumps : Json → Text
  pub repr : Text → Text
  pub str_int : ℕ → Text

-- What an ended response logs as its status: 500 unless a response was started.
abbrev pub status_held : ℕ → List Message → ℕ
status_held code [] = code
status_held code (response_start status headers ∷ sent) = status_held status sent
status_held code (other_message body ∷ sent) = status_held code sent

abbrev pub event_of : Scope → List Message → Option Exc → AccessEvent
event_of scope sent none = request_completed scope.method scope.path (status_held 500 sent)
event_of scope sent (some e) = request_failed scope.method scope.path

module _ {S : Type 0} where
  -- An answer whose messages pass through a `send` that wraps the one outside.
  abbrev pub sending : (Message → Message) → Answer S → Answer S
  sending send answer = record answer { sent = map send answer.sent }

  -- `SecurityHeadersMiddleware.__call__`
  unfoldable pub security_headers_middleware : Environment → App S → App S
  security_headers_middleware env inner r p =
      let answer = inner r p in
      if not r.scope.is_http then answer else sending (send_with_headers env) answer

  abbrev pub with_var : Option Text → Process S → Process S
  with_var id p = record p { request_id_var = id }

  -- `_ctx_var.reset(token)`
  abbrev pub reset : Option Text → Answer S → Answer S
  reset before answer = record answer { process = with_var before answer.process }

  -- `RequestIDMiddleware.__call__`
  unfoldable pub request_id_middleware : App S → App S
  request_id_middleware inner r p =
      let id = request_id r.fresh_id r.scope.headers in
      if not r.scope.is_http
      then inner r p
      else reset p.request_id_var (sending (wrapped_send id) (inner r (with_var (some id) p)))

  abbrev pub log_line : AccessEvent → Process S → Process S
  log_line event p = record p {
    access_log = p.access_log ++ record { request_id = p.request_id_var; event = event } ∷ [];
  }

  -- `AccessLogMiddleware.__call__`
  unfoldable pub access_log_middleware : App S → App S
  access_log_middleware inner r p =
      let answer = inner r p in
      if not r.scope.is_http then answer else record answer {
        process = log_line (event_of r.scope answer.sent answer.raised) answer.process;
      }

-- What the rate limiter decides on a request, with the rules of `create_app`.
abbrev pub verdict_of : Request → Buckets → Verdict × Buckets
verdict_of r =
    rate_limit auth_rate_limits rate_limit_patterns
      (record { path = r.scope.path; client = r.client }) r.now

module _ (py : Python) where
  -- `_send_403` and `_send_429`: the start of the response, and its body.
  abbrev pub send_json : ℕ → Text → List Header → List Message
  send_json status body more =
      response_start status (
        (codes "content-type", codes "application/json")
        ∷ (codes "content-length", py.str_int (length body))
        ∷ more)
      ∷ other_message body
      ∷ []

  -- `_envelope_403`
  unfoldable pub envelope_403 : Option Text → Text → Text
  envelope_403 id origin =
      let reason = codes "origin=" ++ (py.repr origin ++ codes " not allowed") in
      py.json_dumps (
        body_of (
          envelope 403 "CSRF_ORIGIN_REJECTED" (codes "Cross-origin request rejected.")
            (member "reason" (str reason) end) id))

  -- `_envelope_429`
  unfoldable pub envelope_429 : Option Text → ℕ → Text
  envelope_429 id retry_after = py.json_dumps (
      body_of (
        envelope 429 "RATE_LIMITED" (codes "Too many requests.")
          (member "retry_after_seconds" (number (py.str_int retry_after)) end) id))

  module _ {S : Type 0} where
    abbrev pub refuse : List Message → Process S → Answer S
    refuse sent p = record { sent = sent; raised = none; process = p }

    abbrev pub after_check : Outcome → App S → App S
    after_check forwarded inner r p = inner r p
    after_check (rejected origin) inner r p =
        refuse (send_json 403 (envelope_403 p.request_id_var origin) []) p

    -- `CsrfOriginMiddleware.__call__`
    unfoldable pub csrf_middleware : List Text → App S → App S
    csrf_middleware cors_origins inner r p = after_check (csrf cors_origins r.scope) inner r p

    abbrev pub with_buckets : Buckets → Process S → Process S
    with_buckets buckets p = record p { buckets = buckets }

    abbrev pub after_verdict : Verdict × Buckets → App S → App S
    after_verdict (passed, buckets) inner r p = inner r (with_buckets buckets p)
    after_verdict (limited retry_after, buckets) inner r p =
        refuse
          (send_json 429 (envelope_429 p.request_id_var retry_after)
            ((codes "retry-after", py.str_int retry_after) ∷ []))
          (with_buckets buckets p)
    after_verdict (index_error, buckets) inner r p = record {
      sent = [];
      raised = some (other "IndexError");
      process = with_buckets buckets p;
    }

    -- `RateLimitMiddleware.__call__`
    unfoldable pub rate_limit_middleware : App S → App S
    rate_limit_middleware inner r p =
        if not r.scope.is_http then inner r p else after_verdict (verdict_of r p.buckets) inner r p

    -- The middlewares that `create_app` adds inside CORS.
    unfoldable pub guarded : Environment → List Text → App S → App S
    unfolding security_headers_middleware request_id_middleware csrf_middleware
        rate_limit_middleware access_log_middleware
    guarded env cors_origins inner = security_headers_middleware env (
        request_id_middleware
          (csrf_middleware cors_origins (rate_limit_middleware (access_log_middleware inner))))

-- The layers of Starlette, and its `JSONResponse`.
pub record Framework (S : Type 0) : Type 0 where
  -- `ServerErrorMiddleware`, with the handler registered for `Exception`.
  pub server_errors : (Process S → Exc → List Message) → App S → App S
  pub cors : App S → App S
  -- `ExceptionMiddleware`, with the handlers registered for the other classes.
  pub exceptions : (Process S → Exc → Option (List Message)) → App S → App S
  pub json_response : ErrorResponse → List Message

module _ {S : Type 0} (py : Python) (framework : Framework S) where
  -- The handlers that `register_exception_handlers` adds.
  abbrev pub handlers : Process S → Exc → Option (List Message)
  handlers p (app exc) = some (framework.json_response (app_exception_handler p.request_id_var exc))
  handlers p (http_exception status detail) =
      some (framework.json_response (http_exception_handler p.request_id_var status detail))
  handlers p (request_validation_error errors) =
      some (framework.json_response (validation_exception_handler p.request_id_var errors))
  handlers p _ = none

  abbrev pub unhandled : Process S → Exc → List Message
  unhandled p exc = framework.json_response (unhandled_exception_handler p.request_id_var)

  -- `create_app`, around the router.
  unfoldable pub create_app : Environment → List Text → App S → App S
  unfolding guarded
  create_app env cors_origins router =
      framework.server_errors unhandled
        (framework.cors (guarded py env cors_origins (framework.exceptions handlers router)))
