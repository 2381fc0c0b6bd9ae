-- ===== src/Tests/Pipeline.antt =====
-- The pipeline around routes that count the requests and answer or fail.
use magna_cms.Prelude.{
  ℕ, suc, ◌≡◌, refl, Text, codes, true, Option, none, some, List, [], ◌∷◌, map, all, strip,
  is_space, if◌then◌else◌,
}
use magna_cms.Exceptions.{Exc, other, ErrorResponse, unhandled_exception_handler}
use magna_cms.Config.{prod}
use magna_cms.Middleware.Csrf.{csrf, check_origin, rstrip_slash}
use magna_cms.Middleware.RequestId.{
  Message, response_start, other_message, request_id, extract_incoming, is_valid_incoming,
  valid_char,
}
use magna_cms.Middleware.Scopes.{upper, lower, lower_char}
use magna_cms.RateLimit.{
  Buckets, rate_limit, hit, lookup, insert, prune, decide, resolve_rule, image_path,
  prune_oldest_buckets_if_over_cap,
}
use magna_cms.Pipeline.{
  Request, Process, Answer, App, Python, Framework, create_app, envelope_403, envelope_429,
  send_json, verdict_of,
}
use magna_cms.Pipeline.Guarded
use magna_cms.Pipeline.Guarded.{
  guarded_headers, guarded_rejected, guarded_limited, is_complete, dressed, id_of,
}
use magna_cms.Pipeline.Logged
use magna_cms.Pipeline.Logged.{IsQuiet, guarded_logged, is_admitted, line}
use magna_cms.Pipeline.Unhandled.{IsStarlette, create_app_unhandled}

abbrev python : Python
python = record { json_dumps = λ j. codes "{}"; repr = λ t. t; str_int = λ n. codes "2" }

abbrev request : Text → Request
request path = record {
  scope = record {
    is_http = true;
    path = path;
    method = codes "POST";
    headers = (codes "x-request-id", codes "abc") ∷ [];
  };
  client = some (codes "10.0.0.1");
  now = 5_000_000;
  fresh_id = codes "0123-uuid";
}

abbrev foreign : Request
foreign = record (request (codes "/api/v1/auth/login")) {
  scope = record {
    is_http = true;
    path = codes "/api/v1/auth/login";
    method = codes "POST";
    headers = (codes "origin", codes "https://evil.test") ∷ [];
  };
}

abbrev idle : Buckets → Process ℕ
idle buckets = record { request_id_var = none; buckets = buckets; access_log = []; rest = 0 }

abbrev used_up : Buckets
used_up =
    (
      (codes "pattern:improve", codes "10.0.0.1"),
      record { timestamps = 1 ∷ 2 ∷ 3 ∷ 4 ∷ 5 ∷ 6 ∷ 7 ∷ 8 ∷ 9 ∷ 10 ∷ []; last_touch = 10 },
    )
    ∷ []

abbrev counted : Process ℕ → Process ℕ
counted p = record p { rest = suc p.rest }

abbrev routes : App ℕ
routes r p = record {
  sent = response_start 200 [] ∷ other_message (codes "ok") ∷ [];
  raised = none;
  process = counted p;
}

abbrev broken : App ℕ
broken r p = record { sent = []; raised = some (other "KeyError"); process = counted p }

abbrev origins : List Text
origins = codes "https://app.test" ∷ []

guarded_headers_example :
    all
      (is_complete prod (codes "abc"))
      (Guarded.answer python prod origins routes (request (codes "/api/v1/improve")) (idle [])).sent
    ≡ true
unfolding request_id extract_incoming strip is_space is_valid_incoming valid_char
guarded_headers_example =
    guarded_headers python prod origins routes (request (codes "/api/v1/improve")) (idle []) refl

guarded_rejected_example : Guarded.answer python prod origins routes foreign (idle []) ≡ record {
  sent = map (dressed prod (codes "0123-uuid")) (
      send_json python 403
        (envelope_403 python (some (codes "0123-uuid")) (codes "https://evil.test"))
        []);
  raised = none;
  process = idle [];
}
unfolding csrf check_origin upper lower lower_char rstrip_slash request_id extract_incoming
guarded_rejected_example = guarded_rejected python prod origins routes foreign (idle []) refl refl

guarded_limited_example :
    Guarded.answer python prod origins routes (request (codes "/api/v1/improve")) (idle used_up)
    ≡ record {
      sent = map (dressed prod (codes "abc")) (
          send_json python 429
            (envelope_429 python (some (codes "abc")) 55)
            ((codes "retry-after", codes "2") ∷ []));
      raised = none;
      process = idle (verdict_of (request (codes "/api/v1/improve")) used_up).1;
    }
unfolding csrf check_origin upper lower lower_char rstrip_slash rate_limit resolve_rule hit decide
    prune lookup insert image_path request_id extract_incoming strip is_space is_valid_incoming
    valid_char
guarded_limited_example =
    guarded_limited python prod origins routes (request (codes "/api/v1/improve")) (idle used_up)
      refl refl refl

routes-IsQuiet : IsQuiet routes
routes-IsQuiet = record { keeps_log = λ r p. refl; keeps_var = λ r p. refl }

guarded_logged_example :
    let r = request (codes "/api/v1/improve") in
    let v = verdict_of r (idle []).buckets in
    ((Logged.answer python prod origins routes r (idle [])).process.access_log ≡ (
      if is_admitted (csrf origins r.scope) v.0
      then line python prod origins routes r (idle []) v.1 ∷ []
      else []))
    × ((Logged.answer python prod origins routes r (idle [])).process.request_id_var ≡ none)
guarded_logged_example =
    guarded_logged python prod origins routes (request (codes "/api/v1/improve")) (idle [])
      routes-IsQuiet refl

-- Layers of a framework that do what is said of them, and nothing else.
abbrev last_answer :
    (Process ℕ → Exc → List Message) → Answer ℕ → List Message → Option Exc → Answer ℕ
last_answer handle a [] (some e) = record a { sent = handle a.process e }
last_answer handle a sent raised = a

abbrev or_raise : Answer ℕ → Option (List Message) → Answer ℕ
or_raise a none = a
or_raise a (some sent) = record { sent = sent; raised = none; process = a.process }

abbrev handled : (Process ℕ → Exc → Option (List Message)) → Answer ℕ → Option Exc → Answer ℕ
handled handle a none = a
handled handle a (some e) = or_raise a (handle a.process e)

abbrev rendered : ErrorResponse → List Message
rendered e = response_start e.status [] ∷ other_message e.message ∷ []

abbrev layers : Framework ℕ
layers = record {
  server_errors = λ handle inner r p. let a = inner r p in last_answer handle a a.sent a.raised;
  cors = λ inner. inner;
  exceptions = λ handle inner r p. let a = inner r p in handled handle a a.raised;
  json_response = rendered;
}

layers-IsStarlette : IsStarlette layers
layers-IsStarlette = record {
  cors_without_origin = λ inner r p o. refl;
  not_handled = λ handle inner r p e h. rw (e, h) refl;
  last_resort = λ handle inner r p http s e. rw (s, e) refl;
}

create_app_unhandled_example :
    (create_app python layers prod origins broken
      (request (codes "/api/v1/improve"))
      (idle [])).sent
    ≡ rendered (unhandled_exception_handler none)
unfolding rate_limit resolve_rule hit decide prune lookup insert image_path
    prune_oldest_buckets_if_over_cap lower lower_char
create_app_unhandled_example =
    create_app_unhandled python layers prod origins broken (request (codes "/api/v1/improve"))
      (idle []) layers-IsStarlette refl refl refl refl refl refl
