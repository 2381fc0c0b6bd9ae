-- ===== src/Tests/Renderers.antt =====
-- Renderings of concrete results.
use mathlib.Core.List.{Permᴰ}
use magna_cms.Prelude.{◌≡◌, refl, codes, true, [], ◌∷◌, strip, is_space}
use magna_cms.Schemas.AdCopy.{
  AdCopyFormat, AdCopyVariant, AdCopyResult, short, medium, long, curiosity, is_valid,
}
use magna_cms.Renderers.AdCopy.{render_ad_copy}
use magna_cms.Renderers.AdCopy.Order.{render_ad_copy-Perm}
use magna_cms.Renderers.Tags.{tag}

abbrev ad : AdCopyFormat → AdCopyVariant
ad f = record {
  format = f;
  angle = curiosity;
  headline = codes "Tea";
  body = codes "Hot tea";
  cta = codes "Buy";
}

abbrev in_order : AdCopyResult
in_order = record { variants = ad short ∷ ad medium ∷ ad long ∷ [] }

abbrev swapped : AdCopyResult
swapped = record { variants = ad medium ∷ ad short ∷ ad long ∷ [] }

tag_of_blank : tag (codes "# foo") ≡ codes "#-foo"
unfolding tag strip is_space
tag_of_blank = refl

in_order-is_valid : is_valid in_order ≡ true
unfolding is_valid
in_order-is_valid = refl

render_ad_copy-Perm_example : render_ad_copy in_order ≡ render_ad_copy swapped
render_ad_copy-Perm_example =
    render_ad_copy-Perm in_order swapped in_order-is_valid ∣ Permᴰ.swap refl refl ∣₁
