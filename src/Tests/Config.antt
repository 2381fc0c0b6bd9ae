-- ===== src/Tests/Config.antt =====
-- Settings at concrete values.
use magna_cms.Prelude.{◌≤◌, ◌≡◌, refl, codes, true, false, none, some, [], ◌∷◌, any, length}
use magna_cms.Config.{
  Settings, dev, openai, Decoders, is_placeholder, is_strong_jwt_secret, is_localhost, validate,
  reject_weak_secrets, reject_localhost_cors,
}
use magna_cms.Config.Accepted.{AreDecoders, IsMode, validate_lem}

-- Decoders that read nothing as base64, and every hexadecimal text as one byte.
abbrev pub decoders : Decoders
decoders = record {
  fromhex = λ t. some (1 ∷ []);
  urlsafe_b64decode = λ t. none;
  b64decode = λ t. none;
  has_entropy = λ bytes. true;
}

abbrev pub deploy : Settings
deploy = record {
  environment = dev;
  ai_provider_mode = openai;
  allow_mock_provider = false;
  openai_api_key = some (codes "sk-proj-1");
  jwt_secret = codes "0123456789abcdef0123456789abcdef0123456789abcdef0123456789abcdef";
  cors_origins = codes "https://main.example.com" ∷ [];
}

pub deploy-accepted : validate decoders deploy ≡ none
unfolding validate reject_weak_secrets reject_localhost_cors is_strong_jwt_secret is_placeholder
deploy-accepted = refl

pub decoders-AreDecoders : AreDecoders decoders
decoders-AreDecoders = record { urlsafe = λ t bytes e. cc; standard = λ t bytes e. cc }

validate_lem_example :
    (is_placeholder deploy.jwt_secret ≡ false)
    × (40 ≤ length deploy.jwt_secret)
    × IsMode decoders decoders-AreDecoders deploy
    × (any (is_localhost decoders) deploy.cors_origins ≡ false)
validate_lem_example = validate_lem decoders decoders-AreDecoders deploy refl deploy-accepted
