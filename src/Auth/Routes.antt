-- ===== src/Auth/Routes.antt =====
-- backend/app/api/v1/routers/auth.py: what the routes pass to the service, answer and set as a
-- cookie. Their bodies are validated in Auth/Bodies.
pub mod Clients
use magna_cms.Prelude.{
  ℕ, String, Text, Bool, true, false, Option, none, some, List, [], ◌∷◌, take, is_empty, strip,
  str_eq, not, ◌==◌, if◌then◌else◌,
}
use magna_cms.Exceptions.{Exc, app, app_error, unauthorized}
use magna_cms.Models.{User, Uuid, Time}
use magna_cms.Session.{World, Action, External, pure, raise, ◌>>=◌, ◌>>◌}
use magna_cms.Auth.Service
use magna_cms.Auth.Service.{AuthTokens}

-- What the routes read of a request.
pub record Request : Type 0 where
  pub user_agent : Option Text
  pub x_forwarded_for : Option Text
  -- `request.client.host`
  pub client : Option Text
  pub refresh_cookie : Option String

-- What `ipaddress.ip_address` makes of a text: an error, or an address with or without a scope id.
pub data ParsedIp : Type 0 where
  no_ip unscoped scoped : ParsedIp

-- The settings that the cookie depends on.
pub record Settings : Type 0 where
  -- `environment == Environment.LOCAL`
  pub is_local : Bool
  pub cookie_samesite : String

-- A `set_cookie` of a response; `delete_cookie` has neither value nor age.
pub record Cookie : Type 0 where
  pub name : String
  pub value : Option String
  pub httponly : Bool
  pub secure : Bool
  pub samesite : String
  pub max_age : Option ℕ
  pub path : String

abbrev pub refresh_cookie_name : String
refresh_cookie_name = "refresh_token"

abbrev pub refresh_cookie_path : String
refresh_cookie_path = "/api/v1/auth"

-- `_set_refresh_cookie`
unfoldable pub set_refresh_cookie : External → Settings → AuthTokens → Cookie
set_refresh_cookie x settings tokens = record {
  name = refresh_cookie_name;
  value = some tokens.refresh_token_raw;
  httponly = true;
  secure = not settings.is_local;
  samesite = settings.cookie_samesite;
  max_age = some x.refresh_ttl;
  path = refresh_cookie_path;
}

-- `_clear_refresh_cookie`
unfoldable pub clear_refresh_cookie : Settings → Cookie
clear_refresh_cookie settings = record {
  name = refresh_cookie_name;
  value = none;
  httponly = true;
  secure = not settings.is_local;
  samesite = settings.cookie_samesite;
  max_age = none;
  path = refresh_cookie_path;
}

-- `UserResponse` and `AuthResponse` of backend/app/schemas/auth.py, the latter with its cookie.
pub record UserResponse : Type 0 where
  pub id : Uuid
  pub email : String
  pub full_name : String
  pub email_verified_at : Option Time
  pub last_login_at : Option Time
  pub created_at : Time

-- `UserResponse.model_validate`
unfoldable pub user_response : User → UserResponse
user_response user = record {
  id = user.id;
  email = user.email;
  full_name = user.full_name;
  email_verified_at = user.email_verified_at;
  last_login_at = user.last_login_at;
  created_at = user.created_at;
}

pub record AuthResponse : Type 0 where
  pub user : UserResponse
  pub access_token : String
  pub token_type : String
  pub expires_in : ℕ
  pub cookie : Cookie

unfoldable pub client_user_agent : Request → Option Text
client_user_agent request = elim request.user_agent [
  | none ↦ none
  | some ua ↦ if is_empty ua then none else some (take 500 ua)
]

-- `fwd.split(",", 1)[0]`
abbrev pub first_hop : Text → Text
first_hop [] = []
first_hop (c ∷ t) = let rest = first_hop t in if c == b',' then [] else c ∷ rest

module _ (ip_address : Text → ParsedIp) where
  unfoldable pub valid_ip : Option Text → Option Text
  valid_ip none = none
  valid_ip (some candidate) =
      if is_empty candidate
      then none
      else elim (ip_address candidate) [ unscoped ↦ some candidate | _ ↦ none ]

  abbrev pub or_peer : Option Text → Option Text → Option Text
  or_peer (some ip) peer = some ip
  or_peer none peer = peer

  -- The first hop of the header if it is an address, or the TCP peer.
  unfoldable pub client_ip : Request → Option Text
  unfolding valid_ip
  client_ip request = elim request.x_forwarded_for [
    | none ↦ valid_ip request.client
    | some fwd ↦
        if is_empty fwd
        then valid_ip request.client
        else or_peer (valid_ip (some (strip (first_hop fwd)))) (valid_ip request.client)
  ]

abbrev pub missing_refresh_token : Exc
missing_refresh_token =
    app (app_error unauthorized "Refresh token cookie is missing." "MISSING_REFRESH_TOKEN")

module _ (x : External) (ip_address : Text → ParsedIp) (settings : Settings) where
  abbrev pub auth_response : User × AuthTokens → AuthResponse
  auth_response (user, tokens) = record {
    user = user_response user;
    access_token = tokens.access_token;
    token_type = "Bearer";
    expires_in = tokens.access_expires_in;
    cookie = set_refresh_cookie x settings tokens;
  }

  unfoldable pub register : String → Text → String → Request → Action AuthResponse
  register email password full_name request = do
    r ←
        Service.register x email password full_name (client_user_agent request)
          (client_ip ip_address request)
    pure (auth_response r)

  unfoldable pub login : String → Text → Request → Action AuthResponse
  login email password request = do
    r ← Service.login x email password (client_user_agent request) (client_ip ip_address request)
    pure (auth_response r)

  refresh_with : String → Request → Action AuthResponse
  refresh_with raw request = if str_eq raw "" then raise missing_refresh_token else do
    r ← Service.refresh x raw (client_user_agent request) (client_ip ip_address request)
    pure (auth_response r)

  unfoldable pub refresh : Request → Action AuthResponse
  unfolding refresh_with
  refresh request = elim request.refresh_cookie [
    | none ↦ raise missing_refresh_token
    | some raw ↦ refresh_with raw request
  ]

  unfoldable pub logout : Request → Action Cookie
  logout request = do Service.logout x request.refresh_cookie; pure (clear_refresh_cookie settings)
