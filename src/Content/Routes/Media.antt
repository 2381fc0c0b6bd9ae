-- ===== src/Content/Routes/Media.antt =====
-- The routes of backend/app/api/v1/routers/content.py on the images of a piece and on its export.
-- The storage is the local one.
use magna_cms.Prelude.{ℕ, Text, Bool, Option, none, some, List, map, codes, ◌++◌}
use magna_cms.Models.{GeneratedImage, ImageProvider, Uuid, Time, Cost}
use magna_cms.Session.{Action, pure, commit, ◌>>=◌, ◌>>◌}
use magna_cms.Content.Repository.{get_for_user}
use magna_cms.Content.Routes.{or_raise, content_not_found}
use magna_cms.Content.Export.{build_markdown, filename_for}
use magna_cms.Images.Repository.{get_current_for_content, list_for_content}
use magna_cms.Images.Service.{Studio, generate_for_content}
use magna_cms.Images.Storage.{public_url_for}

pub record GeneratedImageResponse : Type 0 where
  pub id : Uuid
  pub content_piece_id : Uuid
  pub style : Text
  pub provider : ImageProvider
  pub model_id : Text
  pub width : ℕ
  pub height : ℕ
  pub cdn_url : Text
  pub image_prompt : Text
  pub negative_prompt : Option Text
  pub cost_usd : Cost
  pub is_current : Bool
  pub created_at : Time

-- `_project_image`; the URL is that of the key under the storage's base URL.
unfoldable pub project_image : Text → GeneratedImage → GeneratedImageResponse
project_image base_url image = record {
  id = image.id;
  content_piece_id = image.content_piece_id;
  style = image.style;
  provider = image.provider;
  model_id = image.model_id;
  width = image.width;
  height = image.height;
  cdn_url = public_url_for base_url image.s3_key;
  image_prompt = image.image_prompt;
  negative_prompt = image.negative_prompt;
  cost_usd = image.cost_usd;
  is_current = image.is_current;
  created_at = image.created_at;
}

-- The body and the headers of an export.
pub record ExportResponse : Type 0 where
  pub content : Text
  pub content_disposition : Text
  pub cache_control : Text

abbrev pub image_url : Text → Option GeneratedImage → Option Text
image_url base_url none = none
image_url base_url (some image) = some (public_url_for base_url image.s3_key)

module _ (s : Studio) (current_user : Uuid) where
  unfoldable pub generate_image : Uuid → Text → Action GeneratedImageResponse
  generate_image content_id style = do
    image ← generate_for_content s current_user content_id style
    commit
    pure (project_image s.images_cdn_base_url image)

  unfoldable pub list_images : Uuid → Action (List GeneratedImageResponse)
  unfolding or_raise
  list_images content_id = do
    found ← get_for_user content_id current_user
    piece ← or_raise content_not_found found
    rows ← list_for_content piece.id
    pure (map (project_image s.images_cdn_base_url) rows)

  -- `isoformat` of a time, `str.lower` and `str` of an id are parameters of the export.
  unfoldable pub export_content :
      (Time → Text) → (Text → Text) → (Uuid → Text) → Uuid → Action ExportResponse
  unfolding or_raise
  export_content isoformat lower id_text content_id = do
    found ← get_for_user content_id current_user
    piece ← or_raise content_not_found found
    current_image ← get_current_for_content piece.id
    let url = image_url s.images_cdn_base_url current_image
    pure (record {
      content = build_markdown isoformat piece current_image url;
      content_disposition =
          codes "attachment; filename=\"" ++ filename_for lower id_text piece ++ codes "\"";
      cache_control = codes "no-store";
    })
