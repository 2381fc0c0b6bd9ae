-- ===== src/Providers/Factory/Modes.antt =====
-- Settings that may start outside a local machine, and the providers that they give.
use magna_cms.Prelude.{◌≡◌, refl, Text, false, none, some, Option-cases, inl, inr}
use magna_cms.Session.{ok}
use magna_cms.Config.{openai, mock, Settings, Decoders, is_local, validate}
use magna_cms.Config.Accepted.{AreDecoders, validate_lem}
use magna_cms.Providers.Factory.{
  Sdk, LlmProvider, ImageProvider, get_llm_provider, get_image_provider, build_llm_provider,
  build_image_provider,
}

module _ (sdk : Sdk) (s : Settings) where
  -- The two providers of the settings are there, and are those that the caches keep.
  abbrev pub IsProvided : Type 0
  IsProvided =
      ((llm : LlmProvider) × (get_llm_provider sdk s none ≡ (ok llm, some llm))
        × (get_llm_provider sdk s (get_llm_provider sdk s none).1 ≡ (ok llm, some llm)))
      × ((image : ImageProvider) × (get_image_provider sdk s none ≡ (ok image, some image))
          × (get_image_provider sdk s (get_image_provider sdk s none).1 ≡ (ok image, some image)))

  provided_openai :
      (key : Text) → s.ai_provider_mode ≡ openai → s.openai_api_key ≡ some key → IsProvided
  unfolding get_llm_provider get_image_provider build_llm_provider build_image_provider
  provided_openai key m k = rw (m, k) ((_, refl, refl), (_, refl, refl))

  provided_mock : s.ai_provider_mode ≡ mock → IsProvided
  unfolding get_llm_provider get_image_provider build_llm_provider build_image_provider
  provided_mock m = rw m ((_, refl, refl), (_, refl, refl))

  -- Settings that pass the checks outside a local machine construct both providers, the model's and
  -- that of the images, at the first request that asks for them, and every later request is given
  -- the same ones.
  pub providers_of_accepted :
      (d : Decoders)
      → AreDecoders d
      → is_local s.environment ≡ false
      → validate d s ≡ none
      → IsProvided
  providers_of_accepted d law remote accepted =
      let (real, long, mode, origins) = validate_lem d law s remote accepted in
      elim mode [
        | inl (m, key) ↦ elim (Option-cases s.openai_api_key) [
          | inl lacking ↦ let key' = rw lacking at key in cc
          | inr (k, e) ↦ provided_openai k m e
        ]
        | inr (m, allowed) ↦ provided_mock m
      ]
