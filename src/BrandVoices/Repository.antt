-- ===== src/BrandVoices/Repository.antt =====
-- backend/app/repositories/brand_voice_repository.py
use magna_cms.Prelude.{
  Text, Bool, true, false, ◌&&◌, Option, none, some, List, [], ◌∷◌, ◌++◌, select, update_where, any,
  leb, order_by, is_none, text_eq, ◌==◌, if◌then◌else◌,
}
use magna_cms.Exceptions.{integrity_error}
use magna_cms.Models.{BrandVoice, Uuid}
use magna_cms.Auth.Users.{user_is}
use magna_cms.Session.{
  World, Action, External, pure, raise, gets, modify_db, scalar_one_or_none, now, draw,
  transaction_time, ◌>>=◌, ◌>>◌,
}

abbrev pub voices : World → List BrandVoice
voices w = w.db.brand_voices

abbrev pub set_voices : List BrandVoice → Action (Unit {0})
set_voices rows = modify_db (λ db. record db { brand_voices = rows })

abbrev pub voice_is : Uuid → BrandVoice → Bool
voice_is voice_id v = v.id == voice_id

-- `id = voice_id AND user_id = user_id AND deleted_at IS NULL`
abbrev pub usable_voice : Uuid → Uuid → BrandVoice → Bool
usable_voice voice_id user_id v =
    voice_is voice_id v && (v.user_id == user_id && is_none v.deleted_at)

unfoldable pub get_for_user : Uuid → Uuid → Action (Option BrandVoice)
get_for_user voice_id user_id w =
    scalar_one_or_none (select (usable_voice voice_id user_id) (voices w)) w

unfoldable pub list_for_user : Uuid → Action (List BrandVoice)
list_for_user user_id = gets (λ w.
    order_by (λ u v. leb v.created_at u.created_at)
      (select (λ v. v.user_id == user_id && is_none v.deleted_at) (voices w)))

-- What a create is given.
pub record VoiceFields : Type 0 where
  pub name : Text
  pub description : Option Text
  pub tone_descriptors : List Text
  pub banned_words : List Text
  pub sample_text : Option Text
  pub target_audience : Option Text

-- A key of the update, if it was sent, with its value or null.
pub data Sent {ℓ} (A : Type ℓ) : Type ℓ where
  unsent : Sent A
  sent : Option A → Sent A

pub record VoiceUpdates : Type 0 where
  pub name : Sent Text
  pub description : Sent Text
  pub tone_descriptors : Sent (List Text)
  pub banned_words : Sent (List Text)
  pub sample_text : Sent Text
  pub target_audience : Sent Text

-- A column that can be null, or a JSON null, after the update.
abbrev pub nullable_after : {A : Type 0} → Sent A → Option A → Option A
nullable_after unsent old = old
nullable_after (sent value) old = value

-- The column `name` is not nullable: `none` is what the flush refuses.
abbrev pub name_after : Sent Text → Text → Option Text
name_after unsent old = some old
name_after (sent value) old = value

abbrev pub text_option_eq : Option Text → Option Text → Bool
text_option_eq none none = true
text_option_eq (some t) (some u) = text_eq t u
text_option_eq _ _ = false

abbrev pub texts_eq : List Text → List Text → Bool
texts_eq [] [] = true
texts_eq (t ∷ ts) (u ∷ us) = text_eq t u && texts_eq ts us
texts_eq _ _ = false

abbrev pub texts_option_eq : Option (List Text) → Option (List Text) → Bool
texts_option_eq none none = true
texts_option_eq (some ts) (some us) = texts_eq ts us
texts_option_eq _ _ = false

-- Whether the flush finds nothing to write.
unfoldable pub unchanged : BrandVoice → BrandVoice → Bool
unchanged v u =
    text_eq v.name u.name
    && text_option_eq v.description u.description
    && texts_option_eq v.tone_descriptors u.tone_descriptors
    && texts_option_eq v.banned_words u.banned_words
    && text_option_eq v.sample_text u.sample_text
    && text_option_eq v.target_audience u.target_audience

-- The row of the voice with the new attributes.
abbrev pub with_updates : VoiceUpdates → Text → BrandVoice → BrandVoice
with_updates updates name v = record v {
  name = name;
  description = nullable_after updates.description v.description;
  tone_descriptors = nullable_after updates.tone_descriptors v.tone_descriptors;
  banned_words = nullable_after updates.banned_words v.banned_words;
  sample_text = nullable_after updates.sample_text v.sample_text;
  target_audience = nullable_after updates.target_audience v.target_audience;
}

-- One UPDATE of the row of an object that was loaded.
unfoldable pub save : BrandVoice → Action BrandVoice
save v = do rows ← gets voices; set_voices (update_where (voice_is v.id) (λ _. v) rows); pure v

-- The flush writes a changed row, and its `updated_at`.
unfoldable pub flush_update : BrandVoice → BrandVoice → Action BrandVoice
unfolding save unchanged
flush_update old new = do
  at ← transaction_time
  if unchanged old new then pure old else save (record new { updated_at = at })

unfoldable pub update_named : BrandVoice → VoiceUpdates → Option Text → Action BrandVoice
update_named voice updates none = raise integrity_error
update_named voice updates (some name) = flush_update voice (with_updates updates name voice)

unfoldable pub update : BrandVoice → VoiceUpdates → Action BrandVoice
unfolding update_named
update voice updates = update_named voice updates (name_after updates.name voice.name)

module _ (x : External) where
  abbrev pub new_voice : Uuid → Uuid → VoiceFields → World → BrandVoice
  new_voice id user_id f w = record {
    id = id;
    created_at = w.started;
    updated_at = w.started;
    deleted_at = none;
    user_id = user_id;
    name = f.name;
    description = f.description;
    tone_descriptors = some f.tone_descriptors;
    banned_words = some f.banned_words;
    sample_text = f.sample_text;
    target_audience = f.target_audience;
  }

  -- The flush checks the foreign key.
  unfoldable pub insert : BrandVoice → Action BrandVoice
  insert v w =
      if any (user_is v.user_id) w.db.users
      then (do set_voices (voices w ++ v ∷ []); pure v) w
      else raise integrity_error w

  unfoldable pub create : Uuid → VoiceFields → Action BrandVoice
  unfolding insert draw
  create user_id fields = do n ← draw; v ← gets (new_voice (x.uuid4 n) user_id fields); insert v

  unfoldable pub delete_found : Option BrandVoice → Action (Option BrandVoice)
  unfolding save now
  delete_found none = pure none
  delete_found (some voice) = do
    t ← now x
    at ← transaction_time
    deleted ← save (record voice { deleted_at = some t; updated_at = at })
    pure (some deleted)

  unfoldable pub soft_delete : Uuid → Uuid → Action (Option BrandVoice)
  unfolding get_for_user delete_found
  soft_delete voice_id user_id = do voice ← get_for_user voice_id user_id; delete_found voice
