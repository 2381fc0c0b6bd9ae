-- ===== src/Tests/BrandVoices.antt =====
-- A PATCH of a concrete brand voice.
use magna_cms.Prelude.{◌≡◌, ◌≢◌, refl, codes, none, some, [], ◌∷◌, select}
use magna_cms.Models.{BrandVoice, Uuid}
use magna_cms.Session.{World, ok}
use magna_cms.BrandVoices.Repository.{VoiceUpdates, unsent, sent, voices, voice_is}
use magna_cms.BrandVoices.Routes.{update_voice, get_voice, project}
use magna_cms.BrandVoices.Routes.Patches.{IsPatched, update_voice-get_voice}
use magna_cms.Tests.World.{external, world}

abbrev calm : BrandVoice
calm = record {
  id = 3;
  created_at = 20;
  updated_at = 20;
  deleted_at = none;
  user_id = 7;
  name = codes "Calm";
  description = some (codes "Slow and kind");
  tone_descriptors = some (codes "calm" ∷ []);
  banned_words = some [];
  sample_text = none;
  target_audience = none;
}

abbrev here : World
here = record (world []) { db = record (world []).db { brand_voices = calm ∷ [] } }

-- A new audience, and null for the description.
abbrev body : VoiceUpdates
body = record {
  name = unsent;
  description = sent none;
  tone_descriptors = unsent;
  banned_words = unsent;
  sample_text = unsent;
  target_audience = sent (some (codes "Teachers"));
}

update_voice-get_voice_example :
    (v : BrandVoice) × (u : World) × (update_voice external 7 3 body here ≡ (ok (project v), u))
    × (get_voice external 7 3 u ≡ (ok (project v), u))
    × (select (voice_is 3) (voices u) ≡ v ∷ [])
    × (u.committed ≡ u.db)
    × IsPatched body calm v
    × ((other : Uuid)
        → other ≢ 3
        → select (voice_is other) (voices u) ≡ select (voice_is other) (voices here))
update_voice-get_voice_example =
    update_voice-get_voice external 7 3 here calm body refl refl refl (λ h. cc)
