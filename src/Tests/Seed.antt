-- ===== src/Tests/Seed.antt =====
-- The seed of a database, with a decoder that reads no answer.
use magna_cms.Prelude.{◌≡◌, refl, codes, true, false, none, some, List, [], ◌∷◌}
use magna_cms.Exceptions.{multiple_results}
use magna_cms.Models.{
  Db, User, ContentPiece, BrandVoice, GeneratedImage, Improvement, Uuid, openai, persuasive, null,
}
use magna_cms.Session.{World, ok, err, get_db_session, draw}
use magna_cms.Auth.Users.{find_by_email}
use magna_cms.BrandVoices.Repository as Voices
use magna_cms.Seed.{
  Tools, demo_email, demo_voice, seed, seed_rows, ensure_user, user_or_new, ensure_brand_voice,
  find_voice, voice_or_new, ensure_content_pieces, create_missing, ensure_one_image_per_piece,
  ensure_image, find_image, image_or_new, ensure_one_improvement, find_improvement,
  improvement_or_new,
}
use magna_cms.Seed.Again.{seed-seed, seed-two_images}
use magna_cms.Tests.World.{external, world, alice}
use magna_cms.Tests.Content.{post}

abbrev tools : Tools
tools = record {
  external = external;
  json_dumps = λ j. codes "{}";
  json_loads = λ t. none;
  str_of = λ j. codes "None";
  float_of = λ j. none;
  exc_text = λ e. codes "failed";
  repr = λ t. t;
  hex = λ n. codes "ab";
  lock_held = λ id. false;
  image_error = λ i. none;
  openai_image_quality = codes "low";
  images_cdn_base_url = codes "";
}

abbrev demo_user : User
demo_user = record alice { email = demo_email }

abbrev blog : ContentPiece
blog = record (post 1 30) { topic = codes "How small teams should evaluate AI tools" }

abbrev network : ContentPiece
network = record (post 2 40) { topic = codes "Three reasons mocks beat magic in CI" }

abbrev letter : ContentPiece
letter = record (post 3 50) { topic = codes "Sneak peek of the new improver chain" }

abbrev picture : Uuid → Uuid → GeneratedImage
picture id of_piece = record {
  id = id;
  created_at = 60;
  updated_at = 60;
  content_piece_id = of_piece;
  image_prompt = codes "A";
  negative_prompt = none;
  style = codes "photorealistic";
  provider = openai;
  model_id = codes "mock-image-v1";
  width = 1;
  height = 1;
  s3_key = codes "a.png";
  cdn_url = codes "a.png";
  cost_usd = 0;
  is_current = true;
}

abbrev better : Improvement
better = record {
  id = 4;
  created_at = 70;
  updated_at = 70;
  deleted_at = none;
  user_id = 7;
  original_text = codes "Tea is hot.";
  improved_text = codes "Tea is hot.";
  goal = persuasive;
  new_audience = none;
  explanation = null;
  changes_summary = null;
  original_word_count = none;
  improved_word_count = none;
  model_id = "mock-llm-v1";
  input_tokens = 10;
  output_tokens = 20;
  cost_usd = 0;
}

abbrev in_house : BrandVoice
in_house = record {
  id = 9;
  created_at = 20;
  updated_at = 20;
  deleted_at = none;
  user_id = 7;
  name = demo_voice.name;
  description = none;
  tone_descriptors = some [];
  banned_words = some [];
  sample_text = none;
  target_audience = none;
}

-- The demo rows, with such voices and images.
abbrev rows : List BrandVoice → List GeneratedImage → Db
rows voices images = record {
  users = demo_user ∷ [];
  refresh_tokens = [];
  content_pieces = blog ∷ network ∷ letter ∷ [];
  generated_images = images;
  brand_voices = voices;
  improvements = better ∷ [];
}

abbrev over : Db → World
over db = record (world []) { db = db; committed = db }

abbrev one_each : List GeneratedImage
one_each = picture 10 1 ∷ picture 11 2 ∷ picture 12 3 ∷ []

-- All rows but the voice are there.
abbrev unvoiced : World
unvoiced = over (rows [] one_each)

abbrev voiced : World
voiced = record unvoiced {
  draws = 1;
  db = rows (Voices.new_voice external 100 7 demo_voice unvoiced ∷ []) one_each;
  committed = rows (Voices.new_voice external 100 7 demo_voice unvoiced ∷ []) one_each;
}

first_run : seed tools unvoiced ≡ (ok tt, voiced)
unfolding seed get_db_session seed_rows ensure_user find_by_email user_or_new ensure_brand_voice
    find_voice voice_or_new Voices.create Voices.insert draw ensure_content_pieces create_missing
    ensure_one_image_per_piece ensure_image find_image image_or_new ensure_one_improvement
    find_improvement improvement_or_new
first_run = refl

seed-seed_example : seed tools voiced ≡ (ok tt, voiced)
seed-seed_example = seed-seed tools unvoiced refl first_run

-- The second piece has two images.
abbrev two_pictures : World
two_pictures = over (rows (in_house ∷ []) (picture 13 2 ∷ one_each))

seed-two_images_example : seed tools two_pictures ≡ (err multiple_results, two_pictures)
seed-two_images_example =
    seed-two_images tools demo_user in_house (blog ∷ []) network (letter ∷ []) two_pictures refl
      refl (refl, refl) ((picture 10 1, refl), tt) refl
