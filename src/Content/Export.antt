-- ===== src/Content/Export.antt =====
-- backend/app/services/export_service.py
pub mod Names
use magna_cms.Prelude.{
  ℕ, Text, codes, Bool, true, false, ◌&&◌, ◌||◌, not, Option, none, some, List, [], ◌∷◌, ◌++◌, take,
  between, is_empty, drop_while, drop_while_end, rstrip, join, ◌==◌, if◌then◌else◌,
}
use magna_cms.Models.{
  ContentPiece, GeneratedImage, ContentType, blog_post, linkedin_post, ad_copy, email, Uuid, Time,
}

abbrev pub slug_max_len : ℕ
slug_max_len = 60

abbrev pub dash : ℕ → Bool
dash c = c == b'-'

-- `[a-z0-9]`
abbrev pub slug_char : ℕ → Bool
slug_char c = between b'a' b'z' c || between b'0' b'9' c

-- `re.sub(r"[^a-z0-9]+", "-", t)`; the flag says whether the run of others has had its hyphen.
abbrev pub hyphenate : Bool → Text → Text
hyphenate in_run [] = []
hyphenate in_run (c ∷ t) =
    let after_char = hyphenate false t in
    let after_other = hyphenate true t in
    if slug_char c then c ∷ after_char else if in_run then after_other else b'-' ∷ after_other

-- `x or "content"`
abbrev pub or_content : Text → Text
or_content t = if is_empty t then codes "content" else t

-- `str.lower` is a parameter: it is Unicode's.
unfoldable pub slugify : (Text → Text) → Text → Text
slugify lower topic =
    let slug = drop_while_end dash (drop_while dash (hyphenate false (lower topic))) in
    if is_empty slug
    then codes "content"
    else or_content (drop_while_end dash (take slug_max_len slug))

unfoldable pub type_value : ContentType → Text
type_value blog_post = codes "blog_post"
type_value linkedin_post = codes "linkedin_post"
type_value ad_copy = codes "ad_copy"
type_value email = codes "email"

-- The lines that an optional text adds if it is there and not empty.
abbrev pub optional_line : Option Text → (Text → Text) → List Text
optional_line none line = []
optional_line (some t) line = if is_empty t then [] else line t ∷ []

image_lines : Option GeneratedImage → Option Text → List Text
image_lines (some image) (some url) =
    if is_empty url
    then []
    else []
      ∷ codes "---"
      ∷ []
      ∷ (codes "![Generated image (style: " ++ image.style ++ codes ")](" ++ url ++ codes ")")
      ∷ []
image_lines _ _ = []

-- `isoformat` of a time is a parameter.
unfoldable pub build_markdown :
    (Time → Text) → ContentPiece → Option GeneratedImage → Option Text → Text
unfolding image_lines type_value rstrip join
build_markdown isoformat piece current_image image_public_url =
    join (codes "\n") (
      ((codes "# " ++ piece.topic)
        ∷ []
        ∷ (codes "> **Type:** " ++ type_value piece.content_type ++ codes "  ")
        ∷ (codes "> **Generated:** " ++ isoformat piece.created_at ++ codes "  ")
        ∷ (codes "> **Model:** " ++ codes piece.model_id)
        ∷ [])
      ++ optional_line piece.tone (λ t. codes "> **Tone:** " ++ t ++ codes "  ")
      ++ optional_line piece.target_audience (λ t. codes "> **Audience:** " ++ t)
      ++ ([] ∷ codes "---" ∷ [] ∷ rstrip piece.rendered_text ∷ [])
      ++ image_lines current_image image_public_url)
    ++ codes "\n"

-- `id_text` is `str(id)`.
unfoldable pub filename_for : (Text → Text) → (Uuid → Text) → ContentPiece → Text
unfolding slugify
filename_for lower id_text piece =
    slugify lower piece.topic ++ (codes "-" ++ (take 8 (id_text piece.id) ++ codes ".md"))
