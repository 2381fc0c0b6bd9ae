-- ===== src/Pipeline/Logged.antt =====
-- The lines of the access log, and the context variable when a request has left the pipeline.
use magna_cms.Prelude.{
  ◌≡◌, refl, ap, sym, Text, Bool, true, false, some, List, [], ◌∷◌, ◌++◌, append-nil, if◌then◌else◌,
  if_not_lem, ◌∙◌,
}
use magna_cms.Config.{Environment}
use magna_cms.Middleware.Csrf.{Outcome, forwarded, rejected, csrf}
use magna_cms.RateLimit.{Buckets, Verdict, passed, limited, index_error}
use magna_cms.Pipeline.{
  Request, Process, Answer, App, Python, AccessLine, verdict_of, event_of, with_buckets,
  access_log_middleware,
}
use magna_cms.Pipeline.Guarded
use magna_cms.Pipeline.Guarded.{
  guarded-http, checked-eq, limited-eq, guarded_rejected, guarded_limited, leaving, entered, id_of,
}

-- Whether a request gets past both guards.
abbrev pub is_admitted : Outcome → Verdict → Bool
is_admitted forwarded passed = true
is_admitted forwarded _ = false
is_admitted (rejected origin) v = false

-- Routes that leave the access log and the context variable to the middlewares.
pub record IsQuiet {S : Type 0} (inner : App S) : Type 0 where
  pub keeps_log : (r : Request) (p : Process S) → (inner r p).process.access_log ≡ p.access_log
  pub keeps_var :
      (r : Request) (p : Process S) → (inner r p).process.request_id_var ≡ p.request_id_var

module _ {S : Type 0} (py : Python) (env : Environment) (cors_origins : List Text) (inner : App S)
    (r : Request) (p : Process S) where
  abbrev pub answer : Answer S
  answer = Guarded.answer py env cors_origins inner r p

  -- What the routes answer, if the guards let the request through and leave such buckets.
  abbrev inside : Buckets → Answer S
  inside buckets = inner r (with_buckets py buckets (entered py env cors_origins inner r p))

  abbrev pub line : Buckets → AccessLine
  line buckets = record {
    request_id = some (id_of py env cors_origins inner r p);
    event = event_of r.scope (inside buckets).sent (inside buckets).raised;
  }

  module _ (quiet : IsQuiet inner) (http : r.scope.is_http ≡ true) where
    passed_log :
        {buckets : Buckets}
        → csrf cors_origins r.scope ≡ forwarded
        → verdict_of r p.buckets ≡ (passed, buckets)
        → answer.process.access_log ≡ p.access_log ++ line buckets ∷ []
    unfolding access_log_middleware
    passed_log {buckets} c v =
        let q = with_buckets py buckets (entered py env cors_origins inner r p) in
        ap (λ a. a.process.access_log)
          (guarded-http py env cors_origins inner r p http
            ∙ ap (leaving py env cors_origins inner r p) (
                checked-eq py env cors_origins inner r p c
                ∙ (limited-eq py env cors_origins inner r p http v ∙ if_not_lem _ _ http)))
        ∙ rw (quiet.keeps_log r q, quiet.keeps_var r q) refl

    logged :
        (outcome : Outcome) (verdict : Verdict × Buckets)
        → csrf cors_origins r.scope ≡ outcome
        → verdict_of r p.buckets ≡ verdict
        → answer.process.access_log
          ≡ p.access_log ++ (if is_admitted outcome verdict.0 then line verdict.1 ∷ [] else [])
    logged (rejected origin) verdict c v =
        ap (λ a. a.process.access_log) (guarded_rejected py env cors_origins inner r p http c)
        ∙ sym (append-nil p.access_log)
    logged forwarded (limited retry_after, buckets) c v =
        ap (λ a. a.process.access_log) (guarded_limited py env cors_origins inner r p http c v)
        ∙ sym (append-nil p.access_log)
    logged forwarded (index_error, buckets) c v =
        ap (λ a. a.process.access_log)
          (guarded-http py env cors_origins inner r p http
            ∙ ap (leaving py env cors_origins inner r p) (
                checked-eq py env cors_origins inner r p c
                ∙ limited-eq py env cors_origins inner r p http v))
        ∙ sym (append-nil p.access_log)
    logged forwarded (passed, buckets) c v = passed_log c v

  -- An HTTP request leaves one line in the access log, with the request's id and what the routes
  -- answered, if it gets past the CSRF guard and the rate limiter, and no line if one of them
  -- answers in the routes' place; and the context variable of the request id is what it was before.
  pub guarded_logged :
      IsQuiet inner
      → r.scope.is_http ≡ true
      → (answer.process.access_log
          ≡ p.access_log
            ++ (if is_admitted (csrf cors_origins r.scope) (verdict_of r p.buckets).0
                then line (verdict_of r p.buckets).1 ∷ []
                else []))
        × (answer.process.request_id_var ≡ p.request_id_var)
  guarded_logged quiet http = (
    logged quiet http (csrf cors_origins r.scope) (verdict_of r p.buckets) refl refl,
    ap (λ a. a.process.request_id_var) (guarded-http py env cors_origins inner r p http),
  )
