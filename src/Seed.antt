-- ===== src/Seed.antt =====
-- backend/app/scripts/seed.py: the demo account with its voice, pieces, images and improvement. The
-- script runs in one session that it commits at its end; a SELECT without an order gives the rows in
-- the order of the table. The providers are the mocks.
pub mod Steps
pub mod Pieces
pub mod Images
pub mod Improvements
pub mod Again
use magna_cms.Prelude.{
  ℕ, String, Text, codes, Bool, true, ◌&&◌, Option, none, some, List, [], ◌∷◌, ◌++◌, select, any,
  is_none, text_eq, ◌==◌, if◌then◌else◌,
}
use magna_cms.Exceptions.{Exc}
use magna_cms.Models.{
  User, BrandVoice, ContentPiece, ContentType, blog_post, linkedin_post, email, GeneratedImage,
  Improvement, persuasive, Json, Uuid,
}
use magna_cms.Session.{
  World, Action, External, pure, gets, scalar_one_or_none, get_db_session, ◌>>=◌, ◌>>◌,
}
use magna_cms.Auth.Security.{hash_password}
use magna_cms.Auth.Users
use magna_cms.Auth.Users.{find_by_email}
use magna_cms.BrandVoices.Repository as Voices
use magna_cms.BrandVoices.Repository.{voices, VoiceFields}
use magna_cms.Content.Repository.{pieces, active}
use magna_cms.Content.Service as Content
use magna_cms.Schemas.Content.{GenerateRequest}
use magna_cms.Schemas.Improvement.{ImproveRequest}
use magna_cms.Images.Repository.{images, image_of}
use magna_cms.Images.Service.{Studio, generate_for_content}
use magna_cms.Improver.Repository.{improvements, active_of}
use magna_cms.Improver.Service as Improver
use magna_cms.Improver.Service.{Reader}
use magna_cms.Providers.Mock as Mock

abbrev pub demo_email : String
demo_email = "demo@magnacms.dev"

abbrev pub demo_password : Text
demo_password = codes "DemoPass123"

abbrev pub demo_name : String
demo_name = "Magna Demo"

abbrev pub demo_voice : VoiceFields
demo_voice = record {
  name = codes "Magna in-house";
  description = some (codes "Direct, specific, no clichés.");
  tone_descriptors = codes "direct" ∷ codes "specific" ∷ codes "warm" ∷ [];
  banned_words =
      codes "leverage"
      ∷ codes "synergy"
      ∷ codes "game-changer"
      ∷ codes "in today's fast-paced world"
      ∷ [];
  sample_text = some (
      codes "We ran every claim against production. The numbers held. "
      ++ codes "If a sentence doesn't survive that test it doesn't ship.");
  target_audience = some (codes "engineering managers and senior individual contributors");
}

-- What the services that the script calls take from outside, beside the providers.
pub record Tools : Type 0 where
  pub external : External
  pub json_dumps : Json → Text
  pub json_loads : Text → Option Json
  pub str_of : Json → Text
  pub float_of : Json → Option Text
  pub exc_text : Exc → Text
  pub repr : Text → Text
  pub hex : ℕ → Text
  pub lock_held : Uuid → Bool
  pub image_error : GeneratedImage → Option Exc
  pub openai_image_quality : Text
  pub images_cdn_base_url : Text

abbrev pub targets : List (ContentType × Text)
targets =
    (blog_post, codes "How small teams should evaluate AI tools")
    ∷ (linkedin_post, codes "Three reasons mocks beat magic in CI")
    ∷ (email, codes "Sneak peek of the new improver chain")
    ∷ []

abbrev pub request_for : BrandVoice → ContentType × Text → GenerateRequest
request_for voice (content_type, topic) = record {
  content_type = content_type;
  topic = topic;
  tone = none;
  target_audience = none;
  brand_voice_id = some voice.id;
}

abbrev pub is_demo_voice : Uuid → BrandVoice → Bool
is_demo_voice user_id v =
    v.user_id == user_id && (text_eq v.name demo_voice.name && is_none v.deleted_at)

abbrev pub is_piece_of : Uuid → ContentPiece → Bool
is_piece_of user_id p = p.user_id == user_id && active p

-- `topic in existing_topics`
abbrev pub has_topic : List ContentPiece → Text → Bool
has_topic existing topic = any (λ p. text_eq p.topic topic) existing

abbrev pub demo_improvement : ImproveRequest
demo_improvement = record {
  original_text =
      codes "The product is a tool that can help your team do many things "
      ++ codes "in many ways. You should try it.";
  goal = persuasive;
  new_audience = none;
}

module _ (t : Tools) where
  abbrev pub studio : Studio
  studio = record {
    llm = Mock.generate t.json_dumps;
    image = Mock.generate_image;
    json_loads = t.json_loads;
    exc_text = t.exc_text;
    repr = t.repr;
    hex = t.hex;
    uuid4 = t.external.uuid4;
    lock_held = t.lock_held;
    image_error = t.image_error;
    openai_image_quality = t.openai_image_quality;
    images_cdn_base_url = t.images_cdn_base_url;
  }

  abbrev pub reader : Reader
  reader = record {
    llm = Mock.generate t.json_dumps;
    json_loads = t.json_loads;
    str_of = t.str_of;
    float_of = t.float_of;
  }

  unfoldable pub user_or_new : Option User → Action User
  user_or_new (some user) = pure user
  user_or_new none = do
    hash ← hash_password t.external demo_password
    Users.create t.external demo_email hash demo_name

  -- `_ensure_user`
  unfoldable pub ensure_user : Action User
  ensure_user = do found ← find_by_email t.external demo_email; user_or_new found

  unfoldable pub voice_or_new : User → Option BrandVoice → Action BrandVoice
  voice_or_new user (some voice) = pure voice
  voice_or_new user none = Voices.create t.external user.id demo_voice

  unfoldable pub find_voice : User → Action (Option BrandVoice)
  find_voice user w = scalar_one_or_none (select (is_demo_voice user.id) (voices w)) w

  -- `_ensure_brand_voice`
  unfoldable pub ensure_brand_voice : User → Action BrandVoice
  ensure_brand_voice user = do found ← find_voice user; voice_or_new user found

  unfoldable pub generate_piece : User → BrandVoice → ContentType × Text → Action ContentPiece
  generate_piece user voice target =
      Content.generate t.external (Mock.generate t.json_dumps) t.json_loads user.id
        (request_for voice target)

  -- The loop over the targets, after some pieces.
  unfoldable pub create_missing :
      User
      → BrandVoice
      → List ContentPiece
      → List (ContentType × Text)
      → List ContentPiece
      → Action (List ContentPiece)
  create_missing user voice existing [] created = pure created
  create_missing user voice existing (target ∷ later) created =
      let rest = create_missing user voice existing later in
      if has_topic existing target.1
      then rest created
      else do piece ← generate_piece user voice target; rest (created ++ piece ∷ [])

  -- `_ensure_content_pieces`
  unfoldable pub ensure_content_pieces : User → BrandVoice → Action (List ContentPiece)
  ensure_content_pieces user voice = do
    existing ← gets (λ w. select (is_piece_of user.id) (pieces w))
    create_missing user voice existing targets existing

  unfoldable pub image_or_new : User → ContentPiece → Option GeneratedImage → Action GeneratedImage
  image_or_new user piece (some image) = pure image
  image_or_new user piece none =
      generate_for_content studio user.id piece.id (codes "photorealistic")

  unfoldable pub find_image : ContentPiece → Action (Option GeneratedImage)
  find_image piece w = scalar_one_or_none (select (image_of piece.id) (images w)) w

  unfoldable pub ensure_image : User → ContentPiece → Action GeneratedImage
  ensure_image user piece = do found ← find_image piece; image_or_new user piece found

  -- `_ensure_one_image_per_piece`
  unfoldable pub ensure_one_image_per_piece : User → List ContentPiece → Action (Unit {0})
  ensure_one_image_per_piece user [] = pure tt
  ensure_one_image_per_piece user (piece ∷ later) = do
    ensure_image user piece
    ensure_one_image_per_piece user later

  unfoldable pub improvement_or_new : User → Option Improvement → Action Improvement
  improvement_or_new user (some improvement) = pure improvement
  improvement_or_new user none = Improver.improve t.external reader user.id demo_improvement

  unfoldable pub find_improvement : User → Action (Option Improvement)
  find_improvement user w = scalar_one_or_none (select (active_of user.id) (improvements w)) w

  -- `_ensure_one_improvement`
  unfoldable pub ensure_one_improvement : User → Action Improvement
  ensure_one_improvement user = do found ← find_improvement user; improvement_or_new user found

  unfoldable pub seed_rows : Action (Unit {0})
  seed_rows = do
    user ← ensure_user
    voice ← ensure_brand_voice user
    made ← ensure_content_pieces user voice
    ensure_one_image_per_piece user made
    ensure_one_improvement user
    pure tt

  -- `seed`: the session commits at the end, and closes without a commit after an exception.
  unfoldable pub seed : Action (Unit {0})
  seed = get_db_session seed_rows
