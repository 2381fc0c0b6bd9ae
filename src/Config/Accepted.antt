-- ===== src/Config/Accepted.antt =====
-- What is known of settings that are accepted.
use magna_cms.Prelude.{
  ℕ, ◌+◌, ◌-◌, ◌*◌, ◌%◌, ◌≤◌, zero, suc, ◌≡◌, refl, ◌∙◌, Text, true, false, ◌&&◌, none, some,
  Option-cases, List, any, all, length, length-append, leb, arith, ◌⊎◌, inl, inr, Bool-cases,
}
use magna_cms.Config.{
  Settings, AiProviderMode, openai, mock, bedrock, Decoders, is_placeholder, is_hex, padded,
  equals_signs, decoded_bytes_if_base64, is_strong_base64, is_strong_jwt_secret, is_local,
  lacks_key, mode_refusal, reject_weak_secrets, reject_localhost_cors, is_localhost, validate,
  jwt_secret_min_bytes,
}

-- Four characters of base64 are at most three bytes.
pub record AreDecoders (d : Decoders) : Type 0 where
  pub urlsafe :
      (t : Text) (bytes : List ℕ)
      → d.urlsafe_b64decode t ≡ some bytes
      → 4 * length bytes ≤ 3 * length t
  pub standard :
      (t : Text) (bytes : List ℕ) → d.b64decode t ≡ some bytes → 4 * length bytes ≤ 3 * length t

length-equals_signs : (n : ℕ) → length (equals_signs n) ≡ n
length-equals_signs zero = refl
length-equals_signs (suc n) = omega (arith, length-equals_signs n)

length-padded : (value : Text) → length (padded value) ≤ length value + 3
length-padded value =
    let n = (4 - length value % 4) % 4 in
    omega (arith, length-append value (equals_signs n), length-equals_signs n)

module _ (d : Decoders) (law : AreDecoders d) where
  length-decoded :
      (value : Text) (bytes : List ℕ)
      → decoded_bytes_if_base64 d value ≡ some bytes
      → 4 * length bytes ≤ 3 * (length value + 3)
  unfolding decoded_bytes_if_base64
  length-decoded value bytes e = elim (Option-cases (d.urlsafe_b64decode (padded value))) [
    | inl f ↦
        let e' = rw f at e in
        omega (arith, law.standard (padded value) bytes e', length-padded value)
    | inr (found, f) ↦
        let e' : some found ≡ some bytes = rw f at e in
        omega (arith, law.urlsafe (padded value) bytes (f ∙ e'), length-padded value)
  ]

  strong-base64 :
      (value : Text)
      → is_strong_base64 d (decoded_bytes_if_base64 d value) ≡ true
      → 40 ≤ length value
  strong-base64 value h = elim (Option-cases (decoded_bytes_if_base64 d value)) [
    | inl f ↦ let h' = rw f at h in cc
    | inr (bytes, f) ↦
        let h' = rw f at h in
        let enough : 32 ≤ length bytes = ground arith in omega (arith, length-decoded value bytes f)
  ]

  strong_lem :
      (value : Text)
      → is_strong_jwt_secret d value ≡ true
      → (is_placeholder value ≡ false) × (40 ≤ length value)
  unfolding is_strong_jwt_secret
  strong_lem value h = elim (Bool-cases (is_placeholder value)) [
    | inl p ↦ let h' = rw p at h in cc
    | inr p ↦
        let h' = rw p at h in
        elim (Bool-cases (all is_hex value && leb (jwt_secret_min_bytes * 2) (length value))) [
          | inl hex ↦ (p, ground arith)
          | inr other ↦ let h'' = rw other at h' in (p, strong-base64 value (ground arith))
        ]
  ]

  -- The provider mode of an accepted deploy: OpenAI with a key, or the mock where it is allowed.
  abbrev pub IsMode : Settings → Type 0
  IsMode s =
      ((s.ai_provider_mode ≡ openai) × (lacks_key d s.openai_api_key ≡ false))
      ⊎ ((s.ai_provider_mode ≡ mock) × (s.allow_mock_provider ≡ true))

  mode_refusal-IsMode :
      (m : AiProviderMode) (s : Settings)
      → s.ai_provider_mode ≡ m
      → mode_refusal d m s ≡ none
      → IsMode s
  mode_refusal-IsMode openai s e h = inl (e, ground arith)
  mode_refusal-IsMode mock s e h = inr (e, ground arith)
  mode_refusal-IsMode bedrock s e h = cc

  -- Settings that are accepted outside the local environment: the JWT secret is no placeholder and
  -- has at least 40 characters, the provider is OpenAI with a key that is no placeholder or the mock
  -- where it is allowed, and no CORS origin names the local host.
  pub validate_lem :
      (s : Settings)
      → is_local s.environment ≡ false
      → validate d s ≡ none
      → (is_placeholder s.jwt_secret ≡ false)
        × (40 ≤ length s.jwt_secret)
        × IsMode s
        × (any (is_localhost d) s.cors_origins ≡ false)
  unfolding validate reject_weak_secrets reject_localhost_cors
  validate_lem s remote h = elim (Bool-cases (is_strong_jwt_secret d s.jwt_secret)) [
    | inr weak ↦ let h' = rw (remote, weak) at h in cc
    | inl strong ↦
        let (real, long) = strong_lem s.jwt_secret strong in
        let h' = rw (remote, strong) at h in
        elim (Option-cases (mode_refusal d s.ai_provider_mode s)) [
          | inr (r, refused) ↦ let h'' = rw refused at h' in cc
          | inl accepted ↦
              let h'' = rw accepted at h' in
              (real, long, mode_refusal-IsMode s.ai_provider_mode s refl accepted, ground arith)
        ]
  ]
