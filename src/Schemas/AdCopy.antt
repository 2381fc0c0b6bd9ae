-- ===== src/Schemas/AdCopy.antt =====
-- The shape of ad copy in backend/app/schemas/content.py: read from JSON (`of_json`), checked
-- (`is_valid`) and written (`model_dump`).
use magna_cms.Prelude.{
  ◌≡◌, refl, String, Text, codes, Bool, true, false, ◌&&◌, Option, none, some, List, [], ◌∷◌, any,
  all, leb, text_eq, length, if◌then◌else◌,
}
use magna_cms.Models.{Json, str, arr, obj, end, member}
use magna_cms.Schemas.Values.{
  ◌>>=◌, value_of, closed, text_of, list_of, to_items, within, items_of-to_items,
}

pub data AdCopyFormat : Type 0 where
  short medium long : AdCopyFormat

pub data AdCopyAngle : Type 0 where
  curiosity social_proof transformation urgency problem_solution : AdCopyAngle

pub record AdCopyVariant : Type 0 where
  pub format : AdCopyFormat
  pub angle : AdCopyAngle
  pub headline : Text
  pub body : Text
  pub cta : Text

pub record AdCopyResult : Type 0 where
  pub variants : List AdCopyVariant

unfoldable pub format_text : AdCopyFormat → Text
format_text short = codes "short"
format_text medium = codes "medium"
format_text long = codes "long"

unfoldable pub angle_text : AdCopyAngle → Text
angle_text curiosity = codes "curiosity"
angle_text social_proof = codes "social_proof"
angle_text transformation = codes "transformation"
angle_text urgency = codes "urgency"
angle_text problem_solution = codes "problem_solution"

abbrev pub format_of : Text → Option AdCopyFormat
format_of t =
    if text_eq t (codes "short")
    then some short
    else if text_eq t (codes "medium")
    then some medium
    else if text_eq t (codes "long")
    then some long
    else none

abbrev pub angle_of : Text → Option AdCopyAngle
angle_of t =
    if text_eq t (codes "curiosity")
    then some curiosity
    else if text_eq t (codes "social_proof")
    then some social_proof
    else if text_eq t (codes "transformation")
    then some transformation
    else if text_eq t (codes "urgency")
    then some urgency
    else if text_eq t (codes "problem_solution")
    then some problem_solution
    else none

abbrev pub fields : List String
fields = "format" ∷ "angle" ∷ "headline" ∷ "body" ∷ "cta" ∷ []

unfoldable pub variant_of : Json → Option AdCopyVariant
variant_of j = closed fields j >>= λ ms. text_of (value_of "format" ms) >>= format_of >>= λ format.
    text_of (value_of "angle" ms) >>= angle_of >>= λ angle.
    text_of (value_of "headline" ms) >>= λ headline. text_of (value_of "body" ms) >>= λ body.
    text_of (value_of "cta" ms) >>= λ cta.
    some (record { format = format; angle = angle; headline = headline; body = body; cta = cta })

unfoldable pub variant_dump : AdCopyVariant → Json
unfolding format_text angle_text
variant_dump v = obj (
    member "format" (str (format_text v.format)) (
      member "angle" (str (angle_text v.angle)) (
        member "headline" (str v.headline)
          (member "body" (str v.body) (member "cta" (str v.cta) end)))))

unfoldable pub of_json : Json → Option AdCopyResult
unfolding variant_of
of_json j = closed ("variants" ∷ []) j >>= λ ms.
    list_of variant_of (value_of "variants" ms) >>= λ variants.
    some (record { variants = variants })

abbrev pub has_format : AdCopyFormat → AdCopyVariant → Bool
has_format short v = elim v.format [ short ↦ true | _ ↦ false ]
has_format medium v = elim v.format [ medium ↦ true | _ ↦ false ]
has_format long v = elim v.format [ long ↦ true | _ ↦ false ]

-- Three variants that cover the formats.
unfoldable pub is_valid : AdCopyResult → Bool
is_valid r =
    leb 3 (length r.variants)
    && leb (length r.variants) 3
    && all (λ v. within 1 200 v.headline && within 1 1_000 v.body && within 1 80 v.cta) r.variants
    && any (has_format short) r.variants
    && any (has_format medium) r.variants
    && any (has_format long) r.variants

unfoldable pub model_dump : AdCopyResult → Json
model_dump r = obj (member "variants" (arr (to_items variant_dump r.variants)) end)

format_of-format_text : (f : AdCopyFormat) → format_of (format_text f) ≡ some f
unfolding format_text
format_of-format_text short = refl
format_of-format_text medium = refl
format_of-format_text long = refl

angle_of-angle_text : (a : AdCopyAngle) → angle_of (angle_text a) ≡ some a
unfolding angle_text
angle_of-angle_text curiosity = refl
angle_of-angle_text social_proof = refl
angle_of-angle_text transformation = refl
angle_of-angle_text urgency = refl
angle_of-angle_text problem_solution = refl

variant_of-variant_dump : (v : AdCopyVariant) → variant_of (variant_dump v) ≡ some v
unfolding variant_of variant_dump
variant_of-variant_dump v = rw (format_of-format_text v.format, angle_of-angle_text v.angle) refl

-- What is written is read again.
pub of_json-model_dump : (r : AdCopyResult) → of_json (model_dump r) ≡ some r
unfolding of_json model_dump
of_json-model_dump r =
    rw (items_of-to_items variant_of variant_dump r.variants variant_of-variant_dump) refl
