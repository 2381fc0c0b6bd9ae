-- ===== src/Pipeline/Guarded.antt =====
-- What the middlewares inside CORS make of a request: the headers of every response, the requests
-- that never reach the routes, and the lines of the access log.
use magna_cms.Prelude.{
  ℕ, ◌≡◌, refl, ap, sym, Text, codes, Bool, true, ◌&&◌, none, some, List, [], ◌∷◌, ◌++◌, map, all,
  any-append, text_eq, text_eq_refl, if_not_lem, subst, ◌∙◌, arith,
}
use magna_cms.Config.{Environment}
use magna_cms.Middleware.Scopes.{Header}
use magna_cms.Middleware.Csrf.{Outcome, forwarded, rejected, csrf}
use magna_cms.Middleware.RequestId.{
  Message, response_start, other_message, request_id, request_id_header, wrapped_send,
}
use magna_cms.Middleware.SecurityHeaders.{
  security_headers, send_with_headers, with_defaults, has_header, has_names, has_header-append,
  has_names-with_defaults,
}
use magna_cms.RateLimit.{Buckets, Verdict, limited}
use magna_cms.Pipeline.{
  Request, Process, Answer, App, Python, guarded, after_check, after_verdict, verdict_of, send_json,
  envelope_403, envelope_429, with_buckets, with_var, sending, reset, security_headers_middleware,
  request_id_middleware, csrf_middleware, rate_limit_middleware, access_log_middleware,
}

-- The start of a response carries the request id and, by their names, all security headers.
abbrev pub is_complete : Environment → Text → Message → Bool
is_complete env id (response_start status headers) =
    has_header (request_id_header, id) headers && has_names (security_headers env) headers
is_complete env id (other_message body) = true

-- What a message of the routes is when it leaves the pipeline.
abbrev pub dressed : Environment → Text → Message → Message
dressed env id m = send_with_headers env (wrapped_send id m)

has_header-last : (h : Header) (headers : List Header) → has_header h (headers ++ h ∷ []) ≡ true
has_header-last (k, v) headers =
    rw
      (
        any-append (λ (name, value). text_eq name k && text_eq value v) headers ((k, v) ∷ []),
        text_eq_refl k,
        text_eq_refl v,
      )
      (ground arith)

is_complete-dressed :
    (env : Environment) (id : Text) (m : Message) → is_complete env id (dressed env id m) ≡ true
unfolding send_with_headers wrapped_send with_defaults
is_complete-dressed env id (other_message body) = refl
is_complete-dressed env id (response_start status headers) =
    let own = headers ++ (request_id_header, id) ∷ [] in
    let carried : has_header (request_id_header, id) (with_defaults (security_headers env) own)
        ≡ true =
      has_header-append (request_id_header, id) own _
        (has_header-last (request_id_header, id) headers) in
    rw (has_names-with_defaults (security_headers env) own, carried) refl

all-map-dressed :
    (env : Environment) (id : Text) (sent : List Message)
    → all (is_complete env id) (map (send_with_headers env) (map (wrapped_send id) sent)) ≡ true
all-map-dressed env id [] = refl
all-map-dressed env id (m ∷ sent) = rw (is_complete-dressed env id m) (all-map-dressed env id sent)

module _ {S : Type 0} (py : Python) (env : Environment) (cors_origins : List Text) (inner : App S)
    (r : Request) (p : Process S) where
  abbrev pub answer : Answer S
  answer = guarded py env cors_origins inner r p

  abbrev pub id_of : Text
  id_of = request_id r.fresh_id r.scope.headers

  -- An answer from inside the middleware of the request ids, as it leaves the pipeline.
  abbrev pub leaving : Answer S → Answer S
  leaving inside =
      sending (send_with_headers env) (reset p.request_id_var (sending (wrapped_send id_of) inside))

  abbrev pub entered : Process S
  entered = with_var (some id_of) p

  pub guarded-http :
      r.scope.is_http ≡ true
      → answer
        ≡ leaving (
            csrf_middleware py cors_origins
              (rate_limit_middleware py (access_log_middleware inner))
              r
              entered)
  unfolding guarded security_headers_middleware request_id_middleware
  guarded-http http =
      if_not_lem _ _ http ∙ ap (sending (send_with_headers env)) (if_not_lem _ _ http)

  pub checked-eq :
      {outcome : Outcome}
      → csrf cors_origins r.scope ≡ outcome
      → csrf_middleware py cors_origins
          (rate_limit_middleware py (access_log_middleware inner))
          r
          entered
        ≡ after_check py outcome (rate_limit_middleware py (access_log_middleware inner)) r entered
  unfolding csrf_middleware
  checked-eq c =
      ap (λ o. after_check py o (rate_limit_middleware py (access_log_middleware inner)) r entered)
        c

  pub limited-eq :
      {verdict : Verdict × Buckets}
      → r.scope.is_http ≡ true
      → verdict_of r p.buckets ≡ verdict
      → rate_limit_middleware py (access_log_middleware inner) r entered
        ≡ after_verdict py verdict (access_log_middleware inner) r entered
  unfolding rate_limit_middleware
  limited-eq http v =
      if_not_lem _ _ http ∙ ap (λ d. after_verdict py d (access_log_middleware inner) r entered) v

  -- Whatever the routes answer an HTTP request, and also when a guard answers it in their place,
  -- every start of a response that leaves the pipeline carries the request's id in an
  -- `x-request-id` header and a header for each name of the security headers of the environment.
  pub guarded_headers : r.scope.is_http ≡ true → all (is_complete env id_of) answer.sent ≡ true
  guarded_headers http =
      subst (λ a. all (is_complete env id_of) a.sent ≡ true) (sym (guarded-http http))
        (all-map-dressed env id_of _)

  -- A request that the CSRF guard refuses reaches neither the rate limiter nor the routes: whatever
  -- these are, the answer is one 403 with the envelope of the refusal, under the request's id and
  -- with the headers of the pipeline, and nothing changes in the process: no budget is used.
  pub guarded_rejected :
      {origin : Text}
      → r.scope.is_http ≡ true
      → csrf cors_origins r.scope ≡ rejected origin
      → answer ≡ record {
        sent = map (dressed env id_of) (send_json py 403 (envelope_403 py (some id_of) origin) []);
        raised = none;
        process = p;
      }
  guarded_rejected http c = guarded-http http ∙ ap leaving (checked-eq c)

  -- A request that the rate limiter refuses does not reach the routes: whatever these are, the
  -- answer is one 429 with the envelope of the refusal and its `retry-after`, under the request's id
  -- and with the headers of the pipeline, and nothing but the rate limiter's buckets changes.
  pub guarded_limited :
      {retry_after : ℕ} {buckets : Buckets}
      → r.scope.is_http ≡ true
      → csrf cors_origins r.scope ≡ forwarded
      → verdict_of r p.buckets ≡ (limited retry_after, buckets)
      → answer ≡ record {
        sent = map (dressed env id_of) (
            send_json py 429
              (envelope_429 py (some id_of) retry_after)
              ((codes "retry-after", py.str_int retry_after) ∷ []));
        raised = none;
        process = with_buckets py buckets p;
      }
  guarded_limited http c v = guarded-http http ∙ ap leaving (checked-eq c ∙ limited-eq http v)
