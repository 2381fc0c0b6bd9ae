-- ===== src/Auth/Security.antt =====
-- backend/app/core/security.py: password rules, bcrypt, access and refresh tokens.
use magna_cms.Prelude.{ℕ, ◌+◌, ◌*◌, String, Text, Bool, false, not, ◌||◌, Option, none, some}
use magna_cms.Prelude.{ltb, codes, between, length, any, str_eq, if◌then◌else◌}
use magna_cms.Exceptions.{other}
use magna_cms.Models.{Digest}
use magna_cms.Session.{
  Action, External, Decoded, expired_signature, invalid_token, claims, pure, raise, modify, now,
  draw, ◌>>=◌, ◌>>◌,
}

-- How many microseconds a second has, the unit of a datetime.
abbrev pub second : ℕ
second = 1_000_000

abbrev pub password_min_length : ℕ
password_min_length = 8

abbrev pub password_max_bytes : ℕ
password_max_bytes = 72

-- `too_weak` is a `PasswordTooWeakError` with its message.
pub data PasswordCheck : Type 0 where
  accepted : PasswordCheck
  too_weak : String → PasswordCheck

unfoldable pub is_letter : ℕ → Bool
is_letter c = between b'A' b'Z' c || between b'a' b'z' c

abbrev pub then_check : PasswordCheck → PasswordCheck → PasswordCheck
then_check accepted k = k
then_check (too_weak m) k = too_weak m

-- An error of `checkpw` is a mismatch.
abbrev pub checked : Option Bool → Bool
checked none = false
checked (some same) = same

module _ (x : External) where
  unfoldable pub validate_bcrypt_password_bytes : Text → PasswordCheck
  validate_bcrypt_password_bytes password =
      if ltb password_max_bytes (x.utf8_length password)
      then too_weak
          "Password must be at most 72 bytes when UTF-8 encoded (bcrypt silently truncates inputs longer than this)."
      else accepted

  unfoldable pub validate_password_strength : Text → PasswordCheck
  unfolding validate_bcrypt_password_bytes is_letter
  validate_password_strength password =
      if ltb (length password) password_min_length
      then too_weak "Password must be at least 8 characters."
      else then_check (validate_bcrypt_password_bytes password) (
          if not (any is_letter password)
          then too_weak "Password must contain at least one letter."
          else if not (any x.is_digit password)
          then too_weak "Password must contain at least one digit."
          else accepted)

  unfoldable pub count_bcrypt : Action (Unit {0})
  count_bcrypt = modify (λ w. record w { bcrypt_runs = w.bcrypt_runs + 1 })

  unfoldable pub or_value_error : Option String → Action String
  or_value_error none = raise (other "ValueError")
  or_value_error (some hash) = pure hash

  unfoldable pub hash_password : Text → Action String
  unfolding count_bcrypt or_value_error draw
  hash_password password = do salt ← draw; count_bcrypt; or_value_error (x.hashpw password salt)

  unfoldable pub verify_password : Text → String → Action Bool
  unfolding count_bcrypt
  verify_password password hashed =
      if ltb password_max_bytes (x.utf8_length password)
      then pure false
      else do count_bcrypt; pure (checked (x.checkpw password hashed))

  -- The module's `_DUMMY_HASH` is computed on first use.
  unfoldable pub dummy_or_new : Option String → Action String
  unfolding hash_password
  dummy_or_new (some hash) = pure hash
  dummy_or_new none = do
    hash ← hash_password (codes "timing-equalizer-not-a-real-password")
    modify (λ w. record w { dummy_hash = some hash })
    pure hash

  unfoldable pub get_dummy_password_hash : Action String
  unfolding dummy_or_new
  get_dummy_password_hash w = dummy_or_new w.dummy_hash w

  -- `create_access_token` with the configured lifetime, its only use.
  unfoldable pub create_access_token : String → Action String
  unfolding now
  create_access_token subject = do
    t ← now x
    pure (x.jwt_encode subject (t + x.access_ttl * second) "access")

  -- `jwt.decode` reads the clock, and the token's type must be `access`.
  abbrev access_only : Decoded → Decoded
  access_only expired_signature = expired_signature
  access_only invalid_token = invalid_token
  access_only (claims sub none) = invalid_token
  access_only (claims sub (some kind)) =
      if str_eq kind "access" then claims sub (some kind) else invalid_token

  unfoldable pub decode_access_token : Text → Action Decoded
  unfolding now
  decode_access_token token = do t ← now x; pure (access_only (x.jwt_decode token t))

  unfoldable pub hash_refresh_token : String → Digest
  hash_refresh_token raw = x.sha256 raw

  -- The raw token and its hash.
  unfoldable pub generate_refresh_token : Action (String × Digest)
  unfolding draw hash_refresh_token
  generate_refresh_token = do n ← draw; pure (x.token_hex n, hash_refresh_token (x.token_hex n))
