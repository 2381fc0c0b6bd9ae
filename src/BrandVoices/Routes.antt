-- ===== src/BrandVoices/Routes.antt =====
-- backend/app/api/v1/routers/brand_voices.py, on bodies that backend/app/schemas/brand_voice.py
-- accepts.
pub mod Patches
use magna_cms.Prelude.{
  ℕ, Text, Bool, true, get_or, ◌&&◌, Option, none, some, List, [], ◌∷◌, leb, length, map,
}
use magna_cms.Exceptions.{Exc, app, app_error, not_found}
use magna_cms.Models.{BrandVoice, Uuid, Time}
use magna_cms.Session.{World, Action, External, pure, raise, commit, ◌>>=◌, ◌>>◌}
use magna_cms.Schemas.Content.{at_most}
use magna_cms.Schemas.Values.{within}
use magna_cms.BrandVoices.Repository
use magna_cms.BrandVoices.Repository.{
  VoiceFields, VoiceUpdates, Sent, unsent, sent, get_for_user, list_for_user, soft_delete,
}

abbrev pub max_list_items : ℕ
max_list_items = 25

-- `BrandVoiceCreate`'s bounds.
unfoldable pub is_create : VoiceFields → Bool
is_create f =
    within 1 120 f.name
    && at_most 2_000 f.description
    && leb (length f.tone_descriptors) max_list_items
    && leb (length f.banned_words) max_list_items
    && at_most 5_000 f.sample_text
    && at_most 500 f.target_audience

abbrev pub sent_text : ℕ → ℕ → Sent Text → Bool
sent_text lo hi (sent (some t)) = within lo hi t
sent_text lo hi _ = true

abbrev pub sent_list : Sent (List Text) → Bool
sent_list (sent (some ts)) = leb (length ts) max_list_items
sent_list _ = true

-- `BrandVoiceUpdate`'s bounds.
unfoldable pub is_update : VoiceUpdates → Bool
is_update u =
    sent_text 1 120 u.name
    && sent_text 0 2_000 u.description
    && sent_list u.tone_descriptors
    && sent_list u.banned_words
    && sent_text 0 5_000 u.sample_text
    && sent_text 0 500 u.target_audience

abbrev pub voice_not_found : Exc
voice_not_found = app (app_error not_found "Brand voice not found." "BRAND_VOICE_NOT_FOUND")

unfoldable pub found_voice : Option BrandVoice → Action BrandVoice
found_voice none = raise voice_not_found
found_voice (some voice) = pure voice

pub record BrandVoiceResponse : Type 0 where
  pub id : Uuid
  pub name : Text
  pub description : Option Text
  pub tone_descriptors : List Text
  pub banned_words : List Text
  pub sample_text : Option Text
  pub target_audience : Option Text
  pub created_at : Time
  pub updated_at : Time
  pub deleted_at : Option Time

-- `_project`
abbrev pub project : BrandVoice → BrandVoiceResponse
project voice = record {
  id = voice.id;
  name = voice.name;
  description = voice.description;
  tone_descriptors = get_or voice.tone_descriptors [];
  banned_words = get_or voice.banned_words [];
  sample_text = voice.sample_text;
  target_audience = voice.target_audience;
  created_at = voice.created_at;
  updated_at = voice.updated_at;
  deleted_at = voice.deleted_at;
}

module _ (x : External) (current_user : Uuid) where
  unfoldable pub list_voices : Action (List BrandVoiceResponse)
  list_voices = do rows ← list_for_user current_user; pure (map project rows)

  unfoldable pub create_voice : VoiceFields → Action BrandVoiceResponse
  create_voice body = do voice ← Repository.create x current_user body; commit; pure (project voice)

  unfoldable pub get_voice : Uuid → Action BrandVoiceResponse
  get_voice voice_id = do
    found ← get_for_user voice_id current_user
    voice ← found_voice found
    pure (project voice)

  unfoldable pub update_voice : Uuid → VoiceUpdates → Action BrandVoiceResponse
  update_voice voice_id body = do
    found ← get_for_user voice_id current_user
    voice ← found_voice found
    updated ← Repository.update voice body
    commit
    pure (project updated)

  unfoldable pub delete_voice : Uuid → Action BrandVoiceResponse
  delete_voice voice_id = do
    found ← soft_delete x voice_id current_user
    voice ← found_voice found
    commit
    pure (project voice)
