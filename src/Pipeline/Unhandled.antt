-- ===== src/Pipeline/Unhandled.antt =====
-- An exception that no registered handler answers, on its way out of the whole application.
use magna_cms.Prelude.{
  ◌≡◌, ap, Text, codes, true, Option, none, some, List, [], map, if_not_lem, ◌∙◌,
}
use magna_cms.Exceptions.{Exc, unhandled_exception_handler}
use magna_cms.Config.{Environment}
use magna_cms.Middleware.Scopes.{last_header}
use magna_cms.Middleware.Csrf.{csrf_without_origin}
use magna_cms.Middleware.RequestId.{Message, wrapped_send}
use magna_cms.Middleware.SecurityHeaders.{send_with_headers}
use magna_cms.RateLimit.{Buckets, passed}
use magna_cms.Pipeline.{
  Request, Process, Answer, App, Python, Framework, verdict_of, with_buckets, handlers, create_app,
  access_log_middleware, guarded, unhandled, event_of, log_line,
}
use magna_cms.Pipeline.Guarded.{guarded-http, checked-eq, limited-eq, leaving, entered, id_of}

-- What the documentation of Starlette says of its layers.
pub record IsStarlette {S : Type 0} (framework : Framework S) : Type 0 where
  -- CORS leaves a request without an Origin alone.
  pub cors_without_origin :
      (inner : App S) (r : Request) (p : Process S)
      → last_header (codes "origin") r.scope.headers ≡ none
      → framework.cors inner r p ≡ inner r p
  -- An exception without a handler passes the inner layer.
  pub not_handled :
      (handle : Process S → Exc → Option (List Message)) (inner : App S) (r : Request)
      (p : Process S)
      → {e : Exc} → (inner r p).raised ≡ some e
      → handle (inner r p).process e ≡ none
      → framework.exceptions handle inner r p ≡ inner r p
  -- The outermost layer answers an exception itself, if no response was started, and raises it again.
  pub last_resort :
      (handle : Process S → Exc → List Message) (inner : App S) (r : Request) (p : Process S)
      → {e : Exc} → r.scope.is_http ≡ true
      → (inner r p).sent ≡ []
      → (inner r p).raised ≡ some e
      → framework.server_errors handle inner r p
        ≡ record (inner r p) { sent = handle (inner r p).process e }

module _ {S : Type 0} (py : Python) (framework : Framework S) (env : Environment)
    (cors_origins : List Text) (router : App S) (r : Request) (p : Process S) where
  -- What the routes' layer is given, if the guards let a request through and leave such buckets.
  abbrev pub inside : Buckets → Process S
  inside buckets =
      with_buckets py buckets
        (entered py env cors_origins (framework.exceptions (handlers py framework) router) r p)

  abbrev stack : App S
  stack = guarded py env cors_origins (framework.exceptions (handlers py framework) router)

  -- An answer of the routes, as it leaves the pipeline.
  abbrev passed_out : Answer S → Answer S
  passed_out a =
      leaving py env cors_origins (framework.exceptions (handlers py framework) router) r p
        (record a { process = log_line (event_of r.scope a.sent a.raised) a.process })

  stack-eq :
      {buckets : Buckets}
      → r.scope.is_http ≡ true
      → last_header (codes "origin") r.scope.headers ≡ none
      → verdict_of r p.buckets ≡ (passed, buckets)
      → framework.exceptions (handlers py framework) router r (inside buckets)
        ≡ router r (inside buckets)
      → stack r p ≡ passed_out (router r (inside buckets))
  unfolding access_log_middleware
  stack-eq http o v e =
      let inner = framework.exceptions (handlers py framework) router in
      let c = csrf_without_origin cors_origins r.scope o in
      guarded-http py env cors_origins inner r p http
      ∙ (ap (leaving py env cors_origins inner r p) (
            checked-eq py env cors_origins inner r p c
            ∙ (limited-eq py env cors_origins inner r p http v ∙ if_not_lem _ _ http))
          ∙ ap passed_out e)

  -- When the routes raise an exception that no registered handler answers, before they start a
  -- response to an HTTP request without an Origin that is within its budget, all that is sent is
  -- what the outermost layer makes of the envelope of the unhandled error, with the request id of
  -- the context in which the pipeline was entered: neither the id that the request was given nor
  -- any header of the pipeline is in it.
  pub create_app_unhandled :
      {buckets : Buckets} {e : Exc}
      → IsStarlette framework
      → r.scope.is_http ≡ true
      → last_header (codes "origin") r.scope.headers ≡ none
      → verdict_of r p.buckets ≡ (passed, buckets)
      → (router r (inside buckets)).sent ≡ []
      → (router r (inside buckets)).raised ≡ some e
      → handlers py framework (router r (inside buckets)).process e ≡ none
      → (create_app py framework env cors_origins router r p).sent
        ≡ framework.json_response (unhandled_exception_handler p.request_id_var)
  unfolding create_app
  create_app_unhandled {buckets} starlette http o v s e h =
      let inner = framework.exceptions (handlers py framework) router in
      let out =
        stack-eq http o v
          (starlette.not_handled (handlers py framework) router r (inside buckets) e h) in
      let through = starlette.cors_without_origin stack r p o ∙ out in
      let nothing : (framework.cors stack r p).sent ≡ [] =
        ap (λ a. a.sent) through
        ∙ ap
            (λ sent.
              map (send_with_headers env)
                (map (wrapped_send (id_of py env cors_origins inner r p)) sent))
            s in
      let raised : (framework.cors stack r p).raised ≡ some _ = ap (λ a. a.raised) through ∙ e in
      ap (λ a. a.sent)
        (starlette.last_resort (unhandled py framework) (framework.cors stack) r p http nothing
          raised)
      ∙ ap (λ a. framework.json_response (unhandled_exception_handler a.process.request_id_var))
          through
