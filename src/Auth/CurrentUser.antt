-- ===== src/Auth/CurrentUser.antt =====
-- backend/app/api/v1/deps.py: who calls, from the Authorization header.
pub mod Tokens
use magna_cms.Prelude.{
  ℕ, String, Text, codes, Bool, true, false, Option, none, some, List, [], ◌∷◌, text_eq, take, not,
  ◌==◌, ◌||◌, if◌then◌else◌, strip,
}
use magna_cms.Exceptions.{Exc, app, app_error, unauthorized}
use magna_cms.Models.{User, Uuid}
use magna_cms.Session.{
  World, Action, External, Decoded, expired_signature, invalid_token, claims, pure, raise, ◌>>=◌,
  ◌>>◌,
}
use magna_cms.Middleware.Scopes.{lower}
use magna_cms.Auth.Security.{decode_access_token}
use magna_cms.Auth.Service.{get_user}
use magna_cms.Auth.Routes.{UserResponse, user_response}

abbrev pub missing_token : Exc
missing_token =
    app (app_error unauthorized "Missing or invalid Authorization header." "MISSING_TOKEN")

abbrev pub token_expired : Exc
token_expired = app (app_error unauthorized "Access token has expired." "TOKEN_EXPIRED")

abbrev pub bad_token : Exc
bad_token = app (app_error unauthorized "Invalid access token." "INVALID_TOKEN")

abbrev pub bad_subject : Exc
bad_subject = app (app_error unauthorized "Invalid token subject." "INVALID_TOKEN")

-- `startswith("bearer ")`
abbrev pub is_bearer : Text → Bool
is_bearer t = text_eq (take 7 t) (codes "bearer ")

-- `t.split(" ", 1)[1]`, for a text with a space.
abbrev pub after_space : Text → Text
after_space [] = []
after_space (c ∷ t) = if c == b' ' then t else after_space t

module _ (x : External) where
  -- `uuid.UUID(sub)` and the lookup.
  user_of : Option Uuid → Action User
  user_of none = raise bad_subject
  user_of (some user_id) = get_user x user_id

  of_claims : Decoded → Action User
  unfolding user_of
  of_claims expired_signature = raise token_expired
  of_claims invalid_token = raise bad_token
  of_claims (claims none kind) = raise bad_subject
  of_claims (claims (some sub) kind) = user_of (x.uuid_of sub)

  of_header : Text → Action User
  unfolding of_claims
  of_header authorization =
      if not (is_bearer (lower authorization))
      then raise missing_token
      else do payload ← decode_access_token x (strip (after_space authorization)); of_claims payload

  -- An empty header is no bearer token either.
  unfoldable pub get_current_user : Option Text → Action User
  unfolding of_header
  get_current_user none = raise missing_token
  get_current_user (some authorization) = of_header authorization

  -- `GET /auth/me`
  unfoldable pub me : Option Text → Action UserResponse
  unfolding user_response
  me authorization = do user ← get_current_user authorization; pure (user_response user)
