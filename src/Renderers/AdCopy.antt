-- ===== src/Renderers/AdCopy.antt =====
-- backend/app/services/renderers/ad_copy.py
pub mod Order
use magna_cms.Prelude.{
  ℕ, ◌≤◌, ◌≡◌, refl, ap, sym, ◌∙◌, Text, codes, Bool, true, false, ◌&&◌, not, Option, none, some,
  List, [], ◌∷◌, ◌++◌, any, all, select, length, join, strip, is_none, leb, arith, if◌then◌else◌,
  Bool-cases, inl, inr,
}
use magna_cms.Schemas.AdCopy.{
  AdCopyFormat, short, medium, long, AdCopyVariant, AdCopyResult, angle_text, has_format, is_valid,
}

unfoldable pub format_label : AdCopyFormat → Text
format_label short = codes "Short"
format_label medium = codes "Medium"
format_label long = codes "Long"

unfoldable pub render_variant : AdCopyVariant → List Text
unfolding format_label
render_variant v =
    (codes "## " ++ format_label v.format ++ codes " (" ++ angle_text v.angle ++ codes ")")
    ∷ (codes "### " ++ strip v.headline)
    ∷ []
    ∷ strip v.body
    ∷ []
    ∷ (codes "CTA: " ++ strip v.cta)
    ∷ []

-- `{v.format: v for v in variants}.get(f)`: the last variant of a format.
abbrev pub by_format : AdCopyFormat → List AdCopyVariant → Option AdCopyVariant
by_format f [] = none
by_format f (v ∷ variants) =
    let later = by_format f variants in
    if not (is_none later) then later else if has_format f v then some v else none

-- One step of the loop over the formats.
abbrev pub add_variant : List Text → Option AdCopyVariant → List Text
add_variant parts none = parts
add_variant [] (some v) = render_variant v
add_variant (p ∷ parts) (some v) = (p ∷ parts) ++ ([] ∷ render_variant v)

unfoldable pub render_ad_copy : AdCopyResult → Text
render_ad_copy r = join (codes "\n") (
    add_variant
      (add_variant (add_variant [] (by_format short r.variants)) (by_format medium r.variants))
      (by_format long r.variants))
