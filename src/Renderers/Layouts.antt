-- ===== src/Renderers/Layouts.antt =====
-- backend/app/services/renderers/blog_post.py, linkedin_post.py and email.py
use magna_cms.Prelude.{Text, codes, List, [], ◌∷◌, ◌++◌, join, strip}
use magna_cms.Schemas.BlogPost.{BlogPostSection, BlogPostResult}
use magna_cms.Schemas.LinkedInPost.{LinkedInPostResult}
use magna_cms.Schemas.Email.{EmailResult}
use magna_cms.Renderers.Tags.{rendered_tags}

abbrev pub lines : List Text → Text
lines = join (codes "\n")

abbrev pub section_lines : List BlogPostSection → List Text
section_lines [] = []
section_lines (s ∷ sections) =
    [] ∷ (codes "## " ++ strip s.heading) ∷ [] ∷ strip s.body ∷ section_lines sections

abbrev pub blog_tag_lines : List Text → List Text
blog_tag_lines [] = []
blog_tag_lines (t ∷ tags) = [] ∷ (codes "Tags: " ++ join (codes " ") (t ∷ tags)) ∷ []

abbrev pub tag_lines : List Text → List Text
tag_lines [] = []
tag_lines (t ∷ tags) = [] ∷ join (codes " ") (t ∷ tags) ∷ []

unfoldable pub render_blog_post : BlogPostResult → Text
unfolding rendered_tags strip join
render_blog_post r = lines (
    ((codes "# " ++ strip r.title) ∷ [] ∷ strip r.intro ∷ section_lines r.sections)
    ++ ([] ∷ strip r.conclusion ∷ blog_tag_lines (rendered_tags r.suggested_tags)))

unfoldable pub render_linkedin_post : LinkedInPostResult → Text
unfolding rendered_tags strip join
render_linkedin_post r =
    lines
      (strip r.hook ∷ [] ∷ strip r.body ∷ [] ∷ strip r.cta ∷ tag_lines (rendered_tags r.hashtags))

unfoldable pub render_email : EmailResult → Text
unfolding strip join
render_email r = lines (
    (codes "Subject: " ++ strip r.subject)
    ∷ (codes "Preview: " ++ strip r.preview_text)
    ∷ []
    ∷ strip r.greeting
    ∷ []
    ∷ strip r.body
    ∷ []
    ∷ strip r.cta_text
    ∷ []
    ∷ strip r.sign_off
    ∷ [])
