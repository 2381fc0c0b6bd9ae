-- ===== src/Tests/Middleware.antt =====
-- The header guards at concrete requests.
use magna_cms.Prelude.{◌≡◌, refl, Text, codes, true, List, [], ◌∷◌}
use magna_cms.Middleware.Scopes.{Scope, lower, lower_char, upper}
use magna_cms.Middleware.Csrf.{
  csrf, check_origin, csrf_origin, with_header, rejected, forwarded, rstrip_slash,
}
use magna_cms.Middleware.RequestId.{request_id_header}

abbrev refresh_scope : Scope
refresh_scope = record {
  is_http = true;
  path = codes "/api/v1/auth/refresh";
  method = codes "post";
  headers = (codes "Origin", codes "https://app.test") ∷ [];
}

abbrev allowed : List Text
allowed = codes "https://app.test/" ∷ []

csrf_origin_example :
    csrf allowed (with_header (codes "ORIGIN") (codes "https://evil.test") refresh_scope)
    ≡ rejected (codes "https://evil.test")
unfolding lower lower_char upper rstrip_slash
csrf_origin_example =
    csrf_origin allowed refresh_scope (codes "ORIGIN") (codes "https://evil.test") refl refl refl
      refl refl

allowed_run : csrf allowed refresh_scope ≡ forwarded
unfolding csrf lower lower_char upper rstrip_slash check_origin
allowed_run = refl

abbrev headers : List (Text × Text)
headers = (request_id_header, codes "a b") ∷ []

abbrev fresh : Text
fresh = codes "0123-uuid"
