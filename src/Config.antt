-- ===== src/Config.antt =====
-- backend/app/core/config.py: which settings a deploy may start with. `base64`'s decoders and the
-- entropy test, which computes with floats, are parameters; a reason to refuse is a value.
pub mod Accepted
pub mod Database
use magna_cms.Prelude.{
  ℕ, ◌+◌, ◌-◌, ◌*◌, ◌%◌, zero, suc, Text, codes, Bool, true, false, ◌&&◌, ◌||◌, not, Option, none,
  some, List, [], ◌∷◌, ◌++◌, any, all, length, leb, is_empty, between, ◌==◌, if◌then◌else◌, select,
}

pub data Environment : Type 0 where
  local dev staging prod : Environment

pub data AiProviderMode : Type 0 where
  openai bedrock mock : AiProviderMode

-- The fields that the validators read.
pub record Settings : Type 0 where
  pub environment : Environment
  pub ai_provider_mode : AiProviderMode
  pub allow_mock_provider : Bool
  pub openai_api_key : Option Text
  pub jwt_secret : Text
  pub cors_origins : List Text

-- Why settings are refused, in the order of the checks.
pub data Refusal : Type 0 where
  weak_jwt_secret no_openai_key mock_provider bedrock_provider localhost_origin : Refusal

-- `text.startswith(prefix)`
abbrev pub starts_with : Text → Text → Bool
starts_with [] text = true
starts_with (p ∷ prefix) [] = false
starts_with (p ∷ prefix) (c ∷ text) = p == c && starts_with prefix text

-- `needle in text`
abbrev pub contains : Text → Text → Bool
contains needle [] = is_empty needle
contains needle (c ∷ text) = starts_with needle (c ∷ text) || contains needle text

abbrev pub placeholder_prefixes : List Text
placeholder_prefixes = codes "REPLACE_ME" ∷ codes "sk-proj-REPLACE" ∷ codes "dev-only-" ∷ []

unfoldable pub is_placeholder : Text → Bool
is_placeholder value = is_empty value || any (λ p. starts_with p value) placeholder_prefixes

abbrev pub is_hex : ℕ → Bool
is_hex c = between b'0' b'9' c || between b'a' b'f' c || between b'A' b'F' c

abbrev pub is_base64 : ℕ → Bool
is_base64 c =
    between b'a' b'z' c
    || between b'A' b'Z' c
    || between b'0' b'9' c
    || c == b'+'
    || c == b'/'
    || c == b'='
    || c == b'_'
    || c == b'-'

abbrev pub jwt_secret_min_bytes : ℕ
jwt_secret_min_bytes = 32

-- `value + "=" * (-len(value) % 4)`
abbrev pub equals_signs : ℕ → Text
equals_signs zero = []
equals_signs (suc n) = b'=' ∷ equals_signs n

abbrev pub padded : Text → Text
padded value = value ++ equals_signs ((4 - length value % 4) % 4)

-- `bytes.fromhex` (`none` is its `ValueError`), `base64.urlsafe_b64decode`, `base64.b64decode` and
-- the test of the entropy of the decoded bytes.
pub record Decoders : Type 0 where
  pub fromhex : Text → Option (List ℕ)
  pub urlsafe_b64decode : Text → Option (List ℕ)
  pub b64decode : Text → Option (List ℕ)
  pub has_entropy : List ℕ → Bool

abbrev pub is_local : Environment → Bool
is_local local = true
is_local _ = false

module _ (d : Decoders) where
  abbrev pub or_standard : Text → Option (List ℕ) → Option (List ℕ)
  or_standard text (some bytes) = some bytes
  or_standard text none = d.b64decode text

  -- `_decoded_bytes_if_base64`
  unfoldable pub decoded_bytes_if_base64 : Text → Option (List ℕ)
  decoded_bytes_if_base64 value = or_standard (padded value) (d.urlsafe_b64decode (padded value))

  abbrev pub is_strong_hex : Option (List ℕ) → Bool
  is_strong_hex none = false
  is_strong_hex (some bytes) = d.has_entropy bytes

  abbrev pub is_strong_base64 : Option (List ℕ) → Bool
  is_strong_base64 none = false
  is_strong_base64 (some bytes) = leb jwt_secret_min_bytes (length bytes) && d.has_entropy bytes

  -- `_is_weak_jwt_secret`: whether it gives no reason.
  unfoldable pub is_strong_jwt_secret : Text → Bool
  unfolding is_placeholder decoded_bytes_if_base64
  is_strong_jwt_secret value =
      if is_placeholder value
      then false
      else if all is_hex value && leb (jwt_secret_min_bytes * 2) (length value)
      then is_strong_hex (d.fromhex value)
      else (all is_base64 value && is_strong_base64 (decoded_bytes_if_base64 value))

  abbrev pub lacks_key : Option Text → Bool
  lacks_key none = true
  lacks_key (some key) = is_placeholder key

  abbrev pub mode_refusal : AiProviderMode → Settings → Option Refusal
  mode_refusal openai s = if lacks_key s.openai_api_key then some no_openai_key else none
  mode_refusal mock s = if s.allow_mock_provider then none else some mock_provider
  mode_refusal bedrock s = some bedrock_provider

  -- `_reject_weak_secrets_outside_local`
  unfoldable pub reject_weak_secrets : Settings → Option Refusal
  reject_weak_secrets s =
      if is_local s.environment
      then none
      else if not (is_strong_jwt_secret s.jwt_secret)
      then some weak_jwt_secret
      else mode_refusal s.ai_provider_mode s

  abbrev pub is_localhost : Text → Bool
  is_localhost origin = contains (codes "localhost") origin || contains (codes "127.0.0.1") origin

  -- `_reject_localhost_cors_outside_local`
  unfoldable pub reject_localhost_cors : Settings → Option Refusal
  reject_localhost_cors s =
      if is_local s.environment
      then none
      else if any is_localhost s.cors_origins
      then some localhost_origin
      else none

  abbrev pub first_refusal : Option Refusal → Option Refusal → Option Refusal
  first_refusal none later = later
  first_refusal (some r) later = some r

  -- The two validators, in the order of their declarations.
  unfoldable pub validate : Settings → Option Refusal
  unfolding reject_weak_secrets reject_localhost_cors
  validate s = first_refusal (reject_weak_secrets s) (reject_localhost_cors s)
