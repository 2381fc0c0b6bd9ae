-- ===== src/Content/Routes.antt =====
-- backend/app/api/v1/routers/content.py: the routes of pieces; those of images and of exports are in
-- Media.
pub mod Owners
pub mod Pages
pub mod Generated
pub mod Media
pub mod Readable
pub mod Requests
use magna_cms.Prelude.{
  ℕ, ◌+◌, ◌-◌, ◌/◌, String, Text, Bool, Option, none, some, List, codes, length, take, leb, rstrip,
  map, ◌++◌, get_or, ◌==◌, if◌then◌else◌,
}
use magna_cms.Exceptions.{Exc, app, app_error, not_found, conflict}
use magna_cms.Models.{ContentPiece, ContentType, ResultParseStatus, Uuid, Time, Cost, Json}
use magna_cms.Schemas.Content.{ContentResult, GenerateRequest}
use magna_cms.Content.Service as Service
use magna_cms.Content.Service.{project_result}
use magna_cms.Session.{
  World, Action, External, Result, LlmRequest, LlmResult, pure, raise, commit, ◌>>=◌, ◌>>◌,
}
use magna_cms.Content.Repository.{
  get_for_user, get_for_user_include_deleted, soft_delete, restore, list_for_user,
}

abbrev pub preview_len : ℕ
preview_len = 200

-- `_build_preview`
unfoldable pub build_preview : Text → Text
build_preview rendered_text =
    if leb (length rendered_text) preview_len
    then rendered_text
    else rstrip (take preview_len rendered_text) ++ codes "…"

abbrev pub content_not_found : Exc
content_not_found = app (app_error not_found "Content not found." "CONTENT_NOT_FOUND")

abbrev pub content_not_deleted : Exc
content_not_deleted = app (app_error conflict "Content is already active." "CONTENT_NOT_DELETED")

abbrev pub restore_window_expired : Exc
restore_window_expired =
    app (app_error conflict "Restore window has expired." "RESTORE_WINDOW_EXPIRED")

-- The `if … is None: raise` of the routes.
unfoldable pub or_raise : Exc → Option ContentPiece → Action ContentPiece
or_raise e none = raise e
or_raise e (some piece) = pure piece

-- `ceil(total / page_size) if total else 0`, exact for totals below 2^50.
unfoldable pub total_pages : ℕ → ℕ → ℕ
total_pages total page_size = if total == 0 then 0 else (total + (page_size - 1)) / page_size

pub record ContentListItem : Type 0 where
  pub id : Uuid
  pub content_type : ContentType
  pub topic : Text
  pub preview : Text
  pub word_count : ℕ
  pub model_id : String
  pub result_parse_status : ResultParseStatus
  pub created_at : Time

pub record PaginationMeta : Type 0 where
  pub page : ℕ
  pub page_size : ℕ
  pub total : ℕ
  pub total_pages : ℕ

pub record ContentDetailResponse : Type 0 where
  pub id : Uuid
  pub content_type : ContentType
  pub topic : Text
  pub tone : Option Text
  pub target_audience : Option Text
  pub result : Option ContentResult
  pub rendered_text : Text
  pub result_parse_status : ResultParseStatus
  pub word_count : ℕ
  pub model_id : String
  pub created_at : Time
  pub deleted_at : Option Time

pub record GenerateUsage : Type 0 where
  pub model_id : String
  pub input_tokens : ℕ
  pub output_tokens : ℕ
  pub cost_usd : Cost

pub record GenerateResponse : Type 0 where
  pub content_id : Uuid
  pub content_type : ContentType
  pub result : Option ContentResult
  pub rendered_text : Text
  pub result_parse_status : ResultParseStatus
  pub word_count : ℕ
  pub usage : GenerateUsage
  pub created_at : Time

abbrev pub detail_with : ContentPiece → Option ContentResult → ContentDetailResponse
detail_with piece result = record {
  id = piece.id;
  content_type = piece.content_type;
  topic = piece.topic;
  tone = piece.tone;
  target_audience = piece.target_audience;
  result = result;
  rendered_text = piece.rendered_text;
  result_parse_status = piece.result_parse_status;
  word_count = get_or piece.word_count 0;
  model_id = piece.model_id;
  created_at = piece.created_at;
  deleted_at = piece.deleted_at;
}

abbrev pub generated_with : ContentPiece → Option ContentResult → GenerateResponse
generated_with piece result = record {
  content_id = piece.id;
  content_type = piece.content_type;
  result = result;
  rendered_text = piece.rendered_text;
  result_parse_status = piece.result_parse_status;
  word_count = get_or piece.word_count 0;
  usage = record {
    model_id = piece.model_id;
    input_tokens = piece.input_tokens;
    output_tokens = piece.output_tokens;
    cost_usd = piece.cost_usd;
  };
  created_at = piece.created_at;
}

-- The `ContentDetailResponse` of a row.
abbrev pub detail : ContentPiece → Action ContentDetailResponse
detail piece = do
  result ← project_result piece.content_type piece.result
  pure (detail_with piece result)

abbrev pub list_item : ContentPiece → ContentListItem
list_item row = record {
  id = row.id;
  content_type = row.content_type;
  topic = row.topic;
  preview = build_preview row.rendered_text;
  word_count = get_or row.word_count 0;
  model_id = row.model_id;
  result_parse_status = row.result_parse_status;
  created_at = row.created_at;
}

module _ (x : External) (current_user : Uuid) where
  unfoldable pub list_content :
      Option ContentType → Option Text → ℕ → ℕ → Action (List ContentListItem × PaginationMeta)
  list_content content_type q page page_size = do
    (rows, total) ← list_for_user x current_user content_type q page page_size
    pure (
      map list_item rows,
      record {
        page = page;
        page_size = page_size;
        total = total;
        total_pages = total_pages total page_size;
      },
    )

  unfoldable pub get_content : Uuid → Action ContentDetailResponse
  unfolding or_raise
  get_content content_id = do
    found ← get_for_user content_id current_user
    piece ← or_raise content_not_found found
    detail piece

  unfoldable pub delete_content : Uuid → Action ContentDetailResponse
  unfolding or_raise
  delete_content content_id = do
    found ← soft_delete x content_id current_user
    piece ← or_raise content_not_found found
    commit
    detail piece

  restore_checked : Uuid → ContentPiece → Action ContentDetailResponse
  unfolding or_raise
  restore_checked content_id piece = elim piece.deleted_at [
    | none ↦ raise content_not_deleted
    | some _ ↦ do
      found ← restore x content_id current_user
      restored ← or_raise restore_window_expired found
      commit
      detail restored
  ]

  unfoldable pub restore_content : Uuid → Action ContentDetailResponse
  unfolding restore_checked or_raise
  restore_content content_id = do
    found ← get_for_user_include_deleted content_id current_user
    piece ← or_raise content_not_found found
    restore_checked content_id piece

module _ (x : External) (llm : ℕ → LlmRequest → Result LlmResult) (json_loads : Text → Option Json)
    (current_user : Uuid) where
  unfoldable pub generate : GenerateRequest → Action GenerateResponse
  generate request = do
    piece ← Service.generate x llm json_loads current_user request
    commit
    result ← project_result piece.content_type piece.result
    pure (generated_with piece result)
