-- ===== src/Tests/Routes.antt =====
-- The auth routes at concrete requests.
use magna_cms.Prelude.{
  arith, List, [], some, ◌≡◌, refl, Text, codes, false, none, text_eq, strip, lstrip, rstrip,
  is_space, if◌then◌else◌,
}
use magna_cms.Exceptions.{FieldError, request_validation_error, handle_exception}
use magna_cms.Models.{null, str}
use magna_cms.Session.{err}
use magna_cms.Auth.Security.{validate_password_strength, validate_bcrypt_password_bytes, is_letter}
use magna_cms.Auth.Bodies.{Pydantic, RegisterRequest, register}
use magna_cms.Auth.Bodies.Rejected.{register-weak}
use magna_cms.Tests.World.{external, world}
use magna_cms.Auth.Routes.{Settings, Request, ParsedIp, unscoped, no_ip, client_ip, valid_ip}

abbrev parse : Text → ParsedIp
parse t = if text_eq t (codes "10.0.0.1") then unscoped else no_ip

abbrev request : Request
request = record {
  user_agent = some (codes "curl");
  x_forwarded_for = some (codes "drop table, 10.0.0.9");
  client = some (codes "10.0.0.1");
  refresh_cookie = none;
}

junk_header : client_ip parse request ≡ some (codes "10.0.0.1")
unfolding client_ip valid_ip strip lstrip rstrip is_space
junk_header = refl

abbrev pydantic : Pydantic
pydantic = record {
  email_str = λ e. some e;
  constraint_error = λ type. record { type = type; msg = codes "invalid"; encoded = null };
  encoded = λ type msg. str msg;
}

abbrev settings : Settings
settings = record { is_local = false; cookie_samesite = "none" }

-- Eight digits and no letter.
abbrev newcomer : RegisterRequest
newcomer = record { email = "bob@example.com"; password = codes "12345678"; full_name = "Bob" }

register-weak_example :
    (errors : List FieldError) × (register external pydantic parse settings newcomer request
        (world [])
      ≡ (err (request_validation_error errors), world []))
    × ((handle_exception none (request_validation_error errors)).status ≡ 422)
    × ((handle_exception none (request_validation_error errors)).code ≡ "WEAK_PASSWORD")
    × ((handle_exception none (request_validation_error errors)).message
        ≡ codes "Password must contain at least one letter.")
unfolding validate_password_strength validate_bcrypt_password_bytes is_letter
register-weak_example =
    register-weak external pydantic parse settings newcomer request (world []) none (λ type. refl)
      (omega arith) (omega arith) refl
