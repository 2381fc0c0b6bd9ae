-- ===== src/Auth/Bodies.antt =====
-- backend/app/schemas/auth.py: the bodies of a registration and a login as Pydantic validates them,
-- before their handlers run, and the public representation of a user. `EmailStr` and the errors of
-- Pydantic's own constraints are parameters. A constraint on a length is checked before the
-- validator of its field, which does not run if it fails; the errors of all fields are collected.
pub mod Rejected
use magna_cms.Prelude.{
  ℕ, String, Text, codes, Option, none, some, List, [], ◌∷◌, ◌++◌, length, ltb, if◌then◌else◌,
}
use magna_cms.Exceptions.{FieldError, request_validation_error}
use magna_cms.Models.{User, Uuid, Time, Json}
use magna_cms.Session.{Action, External, raise}
use magna_cms.Auth.Security.{
  PasswordCheck, accepted, too_weak, validate_password_strength, validate_bcrypt_password_bytes,
}
use magna_cms.Auth.Routes as Routes
use magna_cms.Auth.Routes.{Request, ParsedIp, Settings, AuthResponse}

-- `EmailStr`, the error of a constraint by its type, and `jsonable_encoder` of the errors that the
-- validators raise, by their type and message.
pub record Pydantic : Type 0 where
  pub email_str : String → Option String
  pub constraint_error : String → FieldError
  pub encoded : String → Text → Json

pub record RegisterRequest : Type 0 where
  pub email : String
  pub password : Text
  pub full_name : String

pub record LoginRequest : Type 0 where
  pub email : String
  pub password : Text

module _ (x : External) (p : Pydantic) where
  -- `Field(min_length=…, max_length=…)`, and what comes after it.
  unfoldable pub within_lengths : ℕ → ℕ → Text → List FieldError → List FieldError
  within_lengths min_length max_length value after =
      if ltb (length value) min_length
      then p.constraint_error "string_too_short" ∷ []
      else if ltb max_length (length value)
      then p.constraint_error "string_too_long" ∷ []
      else after

  abbrev pub email_errors : Option String → List FieldError
  email_errors none = p.constraint_error "value_error" ∷ []
  email_errors (some email) = []

  abbrev pub raised : String → PasswordCheck → List FieldError
  raised type accepted = []
  raised type (too_weak message) =
      record { type = type; msg = codes message; encoded = p.encoded type (codes message) } ∷ []

  -- The errors of `RegisterRequest`.
  unfoldable pub register_errors : RegisterRequest → List FieldError
  unfolding within_lengths
  register_errors r =
      email_errors (p.email_str r.email)
      ++ within_lengths 8 72 r.password
          (raised "weak_password" (validate_password_strength x r.password))
      ++ within_lengths 1 200 (codes r.full_name) []

  -- The errors of `LoginRequest`.
  unfoldable pub login_errors : LoginRequest → List FieldError
  unfolding within_lengths
  login_errors r =
      email_errors (p.email_str r.email)
      ++ within_lengths 1 128 r.password
          (raised "value_error" (validate_bcrypt_password_bytes x r.password))

  module _ (ip_address : Text → ParsedIp) (settings : Settings) where
    -- A handler runs on the normalized address if the body has no errors.
    abbrev pub checked :
        List FieldError → Option String → (String → Action AuthResponse) → Action AuthResponse
    checked [] (some email) handler = handler email
    checked errors _ handler = raise (request_validation_error errors)

    -- `POST /auth/register`
    unfoldable pub register : RegisterRequest → Request → Action AuthResponse
    register r request =
        checked (register_errors r) (p.email_str r.email)
          (λ email. Routes.register x ip_address settings email r.password r.full_name request)

    -- `POST /auth/login`
    unfoldable pub login : LoginRequest → Request → Action AuthResponse
    login r request =
        checked (login_errors r) (p.email_str r.email)
          (λ email. Routes.login x ip_address settings email r.password request)
