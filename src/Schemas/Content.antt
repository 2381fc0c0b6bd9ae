-- ===== src/Schemas/Content.antt =====
-- backend/app/schemas/content.py: the request to generate, and the union of the shapes that a model
-- may answer in.
pub mod RoundTrip
use magna_cms.Prelude.{
  ℕ, ◌≡◌, refl, String, Text, codes, Bool, true, false, ◌&&◌, Option, none, some, List, [], ◌∷◌,
  any, all, leb, text_eq, length, if◌then◌else◌,
}
use magna_cms.Models.{
  Json, str, arr, obj, Members, end, member, ContentType, blog_post, linkedin_post, ad_copy, email,
  Uuid,
}
use magna_cms.Schemas.Values.{◌>>=◌, checked, within}
use magna_cms.Schemas.BlogPost
use magna_cms.Schemas.BlogPost.{BlogPostResult}
use magna_cms.Schemas.LinkedInPost
use magna_cms.Schemas.LinkedInPost.{LinkedInPostResult}
use magna_cms.Schemas.Email
use magna_cms.Schemas.Email.{EmailResult}
use magna_cms.Schemas.AdCopy
use magna_cms.Schemas.AdCopy.{AdCopyResult}

pub record GenerateRequest : Type 0 where
  pub content_type : ContentType
  pub topic : Text
  pub tone : Option Text
  pub target_audience : Option Text
  pub brand_voice_id : Option Uuid

abbrev pub at_most : ℕ → Option Text → Bool
at_most hi none = true
at_most hi (some t) = leb (length t) hi

-- The bounds of `GenerateRequest`'s fields.
unfoldable pub is_request : GenerateRequest → Bool
is_request r = within 3 500 r.topic && at_most 120 r.tone && at_most 500 r.target_audience

-- The union of the shapes.
pub data ContentResult : Type 0 where
  blog_result : BlogPostResult → ContentResult
  linkedin_result : LinkedInPostResult → ContentResult
  email_result : EmailResult → ContentResult
  ad_copy_result : AdCopyResult → ContentResult

-- `result_model.model_validate` of the content type's model.
unfoldable pub model_validate : ContentType → Json → Option ContentResult
model_validate blog_post j =
    checked BlogPost.is_valid (BlogPost.of_json j) >>= λ r. some (blog_result r)
model_validate linkedin_post j =
    checked LinkedInPost.is_valid (LinkedInPost.of_json j) >>= λ r. some (linkedin_result r)
model_validate email j = checked Email.is_valid (Email.of_json j) >>= λ r. some (email_result r)
model_validate ad_copy j =
    checked AdCopy.is_valid (AdCopy.of_json j) >>= λ r. some (ad_copy_result r)

-- `model_dump`
unfoldable pub model_dump : ContentResult → Json
model_dump (blog_result r) = BlogPost.model_dump r
model_dump (linkedin_result r) = LinkedInPost.model_dump r
model_dump (email_result r) = Email.model_dump r
model_dump (ad_copy_result r) = AdCopy.model_dump r
