-- ===== src/Models.antt =====
-- backend/app/db/models and db/enums.py: the tables as records, and the database as a record of
-- tables. A UUID is a number, a datetime a number of microseconds, a cost a number of units
-- of 1e-8 USD. A JSONB column holds a `Json`. Text that the program walks is a `Text`.
use magna_cms.Prelude.{ℕ, ◌+◌, ◌*◌, ◌/◌, String, Text, Option, List, Bool}

abbrev pub Uuid : Type 0
Uuid = ℕ

abbrev pub Time : Type 0
Time = ℕ

abbrev pub Cost : Type 0
Cost = ℕ

-- A cost as a column `Numeric(10, 6)` keeps it: PostgreSQL rounds to six places of a dollar, a tie
-- away from zero, and costs are in units of 1e-8 USD.
unfoldable pub numeric_10_6 : Cost → Cost
numeric_10_6 cost = (cost + 50) / 100 * 100

-- The hex SHA-256 digest of a token, as the number that it writes.
abbrev pub Digest : Type 0
Digest = ℕ

pub data ContentType : Type 0 where
  blog_post linkedin_post ad_copy email : ContentType

pub data ResultParseStatus : Type 0 where
  parsed retried failed : ResultParseStatus

pub data ImageProvider : Type 0 where
  openai nova_canvas : ImageProvider

pub data ImprovementGoal : Type 0 where
  shorter persuasive formal seo audience_rewrite : ImprovementGoal

-- What `json.loads` returns; the lists of values and of members are types of the block.
mutual
  pub data Json : Type 0 where
    null : Json
    bool : Bool → Json
    -- A number, by the text that writes it.
    number : Text → Json
    str : Text → Json
    arr : Items → Json
    obj : Members → Json

  pub data Items : Type 0 where
    nil : Items
    cons : Json → Items → Items

  pub data Members : Type 0 where
    end : Members
    member : String → Json → Members → Members

pub record User : Type 0 where
  pub id : Uuid
  pub created_at : Time
  pub updated_at : Time
  pub email : String
  pub password_hash : String
  pub full_name : String
  pub email_verified_at : Option Time
  pub last_login_at : Option Time

pub record RefreshToken : Type 0 where
  pub id : Uuid
  pub created_at : Time
  pub updated_at : Time
  pub user_id : Uuid
  pub token_hash : Digest
  pub expires_at : Time
  pub revoked_at : Option Time
  pub user_agent : Option Text
  pub ip_address : Option Text

pub record ContentPiece : Type 0 where
  pub id : Uuid
  pub created_at : Time
  pub updated_at : Time
  pub deleted_at : Option Time
  pub user_id : Uuid
  pub content_type : ContentType
  pub topic : Text
  pub tone : Option Text
  pub target_audience : Option Text
  pub brand_voice_id : Option Uuid
  pub prompt_version : String
  pub system_prompt_snapshot : Text
  pub user_prompt_snapshot : Text
  pub result : Option Json
  pub rendered_text : Text
  pub result_parse_status : ResultParseStatus
  pub word_count : Option ℕ
  pub model_id : String
  pub input_tokens : ℕ
  pub output_tokens : ℕ
  pub cost_usd : Cost

pub record GeneratedImage : Type 0 where
  pub id : Uuid
  pub created_at : Time
  pub updated_at : Time
  pub content_piece_id : Uuid
  pub image_prompt : Text
  pub negative_prompt : Option Text
  pub style : Text
  pub provider : ImageProvider
  pub model_id : Text
  pub width : ℕ
  pub height : ℕ
  pub s3_key : Text
  pub cdn_url : Text
  pub cost_usd : Cost
  pub is_current : Bool

pub record BrandVoice : Type 0 where
  pub id : Uuid
  pub created_at : Time
  pub updated_at : Time
  pub deleted_at : Option Time
  pub user_id : Uuid
  pub name : Text
  pub description : Option Text
  -- JSONB: `none` is a JSON null.
  pub tone_descriptors : Option (List Text)
  pub banned_words : Option (List Text)
  pub sample_text : Option Text
  pub target_audience : Option Text

pub record Improvement : Type 0 where
  pub id : Uuid
  pub created_at : Time
  pub updated_at : Time
  pub deleted_at : Option Time
  pub user_id : Uuid
  pub original_text : Text
  pub improved_text : Text
  pub goal : ImprovementGoal
  pub new_audience : Option Text
  pub explanation : Json
  pub changes_summary : Json
  pub original_word_count : Option ℕ
  pub improved_word_count : Option ℕ
  pub model_id : String
  pub input_tokens : ℕ
  pub output_tokens : ℕ
  pub cost_usd : Cost

pub record Db : Type 0 where
  pub users : List User
  pub refresh_tokens : List RefreshToken
  pub content_pieces : List ContentPiece
  pub generated_images : List GeneratedImage
  pub brand_voices : List BrandVoice
  pub improvements : List Improvement
