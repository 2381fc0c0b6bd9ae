-- ===== src/Auth/Service.antt =====
-- backend/app/services/auth_service.py
pub mod Rotation
pub mod Reuse
pub mod Integrity
pub mod Preserves
pub mod Requests
pub mod Accounts
pub mod Registration
pub mod Sessions
use magna_cms.Prelude.{ℕ, ◌+◌, ◌*◌, String, Text, codes, Bool, true, Option, none, some}
use magna_cms.Prelude.{leb, str_eq, if◌then◌else◌}
use magna_cms.Exceptions.{Exc, app, integrity_error, app_error, unauthorized, validation, conflict}
use magna_cms.Models.{User, RefreshToken, Uuid, Digest, Time, str, end, member}
use magna_cms.Auth.Security.{
  PasswordCheck, accepted, too_weak, second, validate_password_strength, hash_password,
  verify_password, get_dummy_password_hash, create_access_token, hash_refresh_token,
  generate_refresh_token,
}
use magna_cms.Auth.Users
use magna_cms.Auth.Users.{find_by_id, find_by_email, touch_last_login}
use magna_cms.Auth.Tokens
use magna_cms.Auth.Tokens.{find_by_hash, consume_if_active, revoke_all_for_user, revoke_by_hash}
use magna_cms.Session.{Action, External, pure, raise, catch, rollback, now, ◌>>=◌, ◌>>◌}

pub record AuthTokens : Type 0 where
  pub access_token : String
  pub access_expires_in : ℕ
  pub refresh_token_raw : String
  pub refresh_expires_at : Time

abbrev pub invalid_credentials : Exc
invalid_credentials =
    app (app_error unauthorized "Invalid email or password." "INVALID_CREDENTIALS")

abbrev pub invalid_refresh_token : Exc
invalid_refresh_token =
    app (app_error unauthorized "Refresh token is invalid or expired." "INVALID_REFRESH_TOKEN")

abbrev pub weak_password : String → Exc
weak_password message = app (app_error validation message "WEAK_PASSWORD")

abbrev pub email_taken : Exc
email_taken = app (record (app_error conflict "Email is already registered." "EMAIL_TAKEN") {
  details = member "field" (str (codes "email")) end;
})

module _ (x : External) where
  unfoldable pub mint_tokens : User → Option Text → Option Text → Action AuthTokens
  mint_tokens user user_agent ip_address = do
    access_token ← create_access_token x (x.uuid_str user.id)
    (raw, hashed) ← generate_refresh_token x
    t ← now x
    let expires_at = t + x.refresh_ttl * second
    Tokens.create x user.id hashed expires_at user_agent ip_address
    pure (record {
      access_token = access_token;
      access_expires_in = x.access_ttl;
      refresh_token_raw = raw;
      refresh_expires_at = expires_at;
    })

  -- `except IntegrityError`
  on_create_error : Exc → Action User
  on_create_error integrity_error = do rollback; raise email_taken
  on_create_error e = raise e

  require_strong : PasswordCheck → Action (Unit {0})
  require_strong accepted = pure tt
  require_strong (too_weak message) = raise (weak_password message)

  -- `hash_password` stands inside the `try` too.
  create_user : String → Text → String → Action User
  create_user email password full_name =
      catch (do hash ← hash_password x password; Users.create x email hash full_name)
        on_create_error

  unfoldable pub register :
      String → Text → String → Option Text → Option Text → Action (User × AuthTokens)
  unfolding create_user on_create_error require_strong
  register email password full_name user_agent ip_address = do
    require_strong (validate_password_strength x password)
    user ← create_user email password full_name
    tokens ← mint_tokens user user_agent ip_address
    pure (user, tokens)

  -- The user's hash, or the dummy hash if there is no user.
  hash_to_verify : Option User → Action String
  hash_to_verify none = get_dummy_password_hash x
  hash_to_verify (some user) = pure user.password_hash

  require_valid : Option User → Bool → Action User
  require_valid (some user) true = pure user
  require_valid _ _ = raise invalid_credentials

  unfoldable pub login : String → Text → Option Text → Option Text → Action (User × AuthTokens)
  unfolding hash_to_verify require_valid
  login email password user_agent ip_address = do
    found ← find_by_email x email
    hash ← hash_to_verify found
    password_ok ← verify_password x password hash
    user ← require_valid found password_ok
    user ← touch_last_login x user
    tokens ← mint_tokens user user_agent ip_address
    pure (user, tokens)

  unfoldable pub or_gone : Option User → Action User
  or_gone none =
      raise (app (app_error unauthorized "Authenticated user no longer exists." "UNAUTHORIZED"))
  or_gone (some user) = pure user

  unfoldable pub get_user : Uuid → Action User
  unfolding or_gone
  get_user user_id = do found ← find_by_id user_id; or_gone found

  revoke_family : RefreshToken → Action (Unit {0})
  revoke_family existing = do revoke_all_for_user x existing.user_id; pure tt

  react_to : Option RefreshToken → Action (Unit {0})
  unfolding revoke_family
  react_to none = pure tt
  react_to (some existing) = elim existing.revoked_at [
    | none ↦ pure tt
    | some _ ↦ do t ← now x; if leb existing.expires_at t then pure tt else revoke_family existing
  ]

  unfoldable pub handle_refresh_miss : Digest → Action (Unit {0})
  unfolding react_to
  handle_refresh_miss token_hash = do existing ← find_by_hash token_hash; react_to existing

  require_claimed : Digest → Option Uuid → Action Uuid
  require_claimed token_hash none = do handle_refresh_miss token_hash; raise invalid_refresh_token
  require_claimed token_hash (some user_id) = pure user_id

  require_user : Option User → Action User
  require_user none = raise invalid_refresh_token
  require_user (some user) = pure user

  -- The part of `refresh` after the claim.
  unfoldable pub reissue : Uuid → Option Text → Option Text → Action (User × AuthTokens)
  unfolding require_user
  reissue user_id user_agent ip_address = do
    found ← find_by_id user_id
    user ← require_user found
    tokens ← mint_tokens user user_agent ip_address
    pure (user, tokens)

  unfoldable pub refresh : String → Option Text → Option Text → Action (User × AuthTokens)
  unfolding require_claimed
  refresh raw_refresh user_agent ip_address = do
    let token_hash = hash_refresh_token x raw_refresh
    claimed ← consume_if_active x token_hash
    user_id ← require_claimed token_hash claimed
    reissue user_id user_agent ip_address

  -- A cookie that is absent or empty is no token.
  unfoldable pub logout : Option String → Action (Unit {0})
  logout none = pure tt
  logout (some raw_refresh) =
      if str_eq raw_refresh ""
      then pure tt
      else do revoke_by_hash x (hash_refresh_token x raw_refresh); pure tt
