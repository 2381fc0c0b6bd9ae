-- ===== src/Exceptions.antt =====
-- backend/app/core/exceptions.py: the hierarchy of application errors and the envelope that each
-- becomes. Logging is left out. `Exc` is whatever a handler can raise: an `AppException`, or an error of the database
-- layer that a service may catch.
use magna_cms.Prelude.{ℕ, String, Text, Option, none, some, List, [], ◌∷◌, str_eq}
use magna_cms.Prelude.{codes, get_or, ◌==◌, if◌then◌else◌}
use magna_cms.Models.{Json, null, str, arr, obj, Items, nil, cons, Members, end, member}

-- The subclasses of `AppException`, and the class itself.
pub data ErrorKind : Type 0 where
  app_exception not_found unauthorized forbidden validation conflict rate_limit provider : ErrorKind

unfoldable pub status_code : ErrorKind → ℕ
status_code app_exception = 500
status_code not_found = 404
status_code unauthorized = 401
status_code forbidden = 403
status_code validation = 422
status_code conflict = 409
status_code rate_limit = 429
status_code provider = 502

unfoldable pub default_code : ErrorKind → String
default_code app_exception = "INTERNAL_ERROR"
default_code not_found = "NOT_FOUND"
default_code unauthorized = "UNAUTHORIZED"
default_code forbidden = "FORBIDDEN"
default_code validation = "VALIDATION_FAILED"
default_code conflict = "CONFLICT"
default_code rate_limit = "RATE_LIMITED"
default_code provider = "PROVIDER_ERROR"

pub record AppException : Type 0 where
  pub kind : ErrorKind
  pub message : Text
  pub code : String
  pub details : Members

-- `kind(message, code=code)`
abbrev pub app_error : ErrorKind → String → String → AppException
app_error kind message code = record {
  kind = kind;
  message = codes message;
  code = code;
  details = end;
}

-- One entry of `RequestValidationError.errors()`: its type, its message, and what
-- `jsonable_encoder` makes of it.
pub record FieldError : Type 0 where
  pub type : String
  pub msg : Text
  pub encoded : Json

pub data Exc : Type 0 where
  app : AppException → Exc
  -- Starlette's `HTTPException`, with its status and its detail, when that is not empty.
  http_exception : ℕ → Option Text → Exc
  request_validation_error : List FieldError → Exc
  -- A unique constraint refused a flush.
  integrity_error : Exc
  -- Another error of the driver, with its SQLSTATE.
  dbapi_error : String → Exc
  -- `scalar_one_or_none` met two rows.
  multiple_results : Exc
  -- Any other Python exception, by its name.
  other : String → Exc

-- The wire form of an error: the status, and the `error` and `meta` members of the envelope.
pub record ErrorResponse : Type 0 where
  pub status : ℕ
  pub code : String
  pub message : Text
  pub details : Members
  pub request_id : Option Text

abbrev pub envelope : ℕ → String → Text → Members → Option Text → ErrorResponse
envelope status code message details request_id = record {
  status = status;
  code = code;
  message = message;
  details = details;
  request_id = request_id;
}

abbrev request_id_json : Option Text → Json
request_id_json none = null
request_id_json (some id) = str id

-- The body of an error response, as the object that `json.dumps` writes.
abbrev pub body_of : ErrorResponse → Json
body_of r = obj (
    member "error"
      (obj (
        member "code" (str (codes r.code))
          (member "message" (str r.message) (member "details" (obj r.details) end))))
      (member "meta" (obj (member "request_id" (request_id_json r.request_id) end)) end))

unfoldable pub app_exception_handler : Option Text → AppException → ErrorResponse
unfolding status_code
app_exception_handler request_id exc =
    envelope (status_code exc.kind) exc.code exc.message exc.details request_id

unfoldable pub unhandled_exception_handler : Option Text → ErrorResponse
unhandled_exception_handler request_id =
    envelope 500 "INTERNAL_ERROR" (codes "An internal error occurred.") end request_id

unfoldable pub http_code : ℕ → String
http_code s =
    if s == 400
    then "BAD_REQUEST"
    else if s == 401
    then "UNAUTHORIZED"
    else if s == 403
    then "FORBIDDEN"
    else if s == 404
    then "NOT_FOUND"
    else if s == 405
    then "METHOD_NOT_ALLOWED"
    else if s == 409
    then "CONFLICT"
    else if s == 413
    then "PAYLOAD_TOO_LARGE"
    else if s == 415
    then "UNSUPPORTED_MEDIA_TYPE"
    else if s == 422
    then "VALIDATION_FAILED"
    else if s == 429
    then "RATE_LIMITED"
    else "HTTP_ERROR"

-- `detail` is the exception's detail, when it has a non-empty one.
unfoldable pub http_exception_handler : Option Text → ℕ → Option Text → ErrorResponse
unfolding http_code
http_exception_handler request_id status detail =
    envelope status (http_code status) (get_or detail (codes "HTTP error.")) end request_id

abbrev encoded_errors : List FieldError → Items
encoded_errors [] = nil
encoded_errors (e ∷ errors) = cons e.encoded (encoded_errors errors)

-- The message of the first error of the type `weak_password`.
abbrev pub weak_password_msg : List FieldError → Option Text
weak_password_msg [] = none
weak_password_msg (e ∷ errors) =
    if str_eq e.type "weak_password" then some e.msg else weak_password_msg errors

abbrev weak_or_generic : Option Text → Members → Option Text → ErrorResponse
weak_or_generic request_id details none =
    envelope 422 "VALIDATION_FAILED" (codes "Request validation failed.") details request_id
weak_or_generic request_id details (some msg) = envelope 422 "WEAK_PASSWORD" msg details request_id

unfoldable pub validation_exception_handler : Option Text → List FieldError → ErrorResponse
validation_exception_handler request_id errors =
    weak_or_generic request_id (member "errors" (arr (encoded_errors errors)) end)
      (weak_password_msg errors)

-- What `register_exception_handlers` makes of an exception that leaves a handler.
unfoldable pub handle_exception : Option Text → Exc → ErrorResponse
unfolding app_exception_handler http_exception_handler validation_exception_handler
    unhandled_exception_handler
handle_exception request_id (app exc) = app_exception_handler request_id exc
handle_exception request_id (http_exception status detail) =
    http_exception_handler request_id status detail
handle_exception request_id (request_validation_error errors) =
    validation_exception_handler request_id errors
handle_exception request_id _ = unhandled_exception_handler request_id
