-- ===== src/Tests/Export.antt =====
-- Exports at a concrete topic.
use magna_cms.Prelude.{◌≡◌, refl, codes}
use magna_cms.Content.Export.{slugify}
use magna_cms.Middleware.Scopes.{lower, lower_char}

slugify_tea : slugify lower (codes "  Tea & \"Toast\": 2!") ≡ codes "tea-toast-2"
unfolding slugify lower lower_char
slugify_tea = refl
