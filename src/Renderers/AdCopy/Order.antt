-- ===== src/Renderers/AdCopy/Order.antt =====
-- The order in which a model lists its variants does not show in the text.
use mathlib.Core.List.{Perm, Permᴰ}
use mathlib.Core.Logic.{∥∥₁_elim}
use magna_cms.Prelude.{
  ◌+◌, ◌≤◌, ◌≡◌, refl, ap, ◌∙◌, Bool, true, some, List, [], ◌∷◌, any, select, length, arith,
}
use magna_cms.Schemas.AdCopy.{
  AdCopyFormat, short, medium, long, AdCopyVariant, AdCopyResult, has_format, is_valid,
}
use magna_cms.Renderers.AdCopy.{by_format, render_ad_copy}

length-select-Perm :
    (p : AdCopyVariant → Bool) {vs us : List AdCopyVariant}
    → Permᴰ vs us
    → length (select p vs) ≡ length (select p us)
length-select-Perm p Permᴰ.nil = refl
length-select-Perm p (Permᴰ.cons {a} {b} e d) = ground (arith, ap p e, length-select-Perm p d)
length-select-Perm p (Permᴰ.swap {a} {b} {a'} {b'} {l} e f) = ground (arith, ap p e, ap p f)
length-select-Perm p (Permᴰ.trans d e) = length-select-Perm p d ∙ length-select-Perm p e

-- Where a format stands once, its variant is found in any order.
by_format-Perm :
    (f : AdCopyFormat) {vs us : List AdCopyVariant}
    → Permᴰ vs us
    → length (select (has_format f) vs) ≤ 1
    → by_format f vs ≡ by_format f us
by_format-Perm f Permᴰ.nil h = refl
by_format-Perm f (Permᴰ.cons {a} {b} {l₁} {l₂} e d) h =
    ground (arith, ap (has_format f) e, ap some e, by_format-Perm f d)
by_format-Perm f (Permᴰ.swap {a} {b} {a'} {b'} {l} e g) h =
    ground (arith, ap (has_format f) e, ap (has_format f) g, ap some e, ap some g)
by_format-Perm f (Permᴰ.trans d e) h =
    by_format-Perm f d h ∙ by_format-Perm f e (omega (arith, length-select-Perm (has_format f) d))

-- Each variant has one of the three formats.
select_formats :
    (vs : List AdCopyVariant)
    → length (select (has_format short) vs)
        + length (select (has_format medium) vs)
        + length (select (has_format long) vs)
      ≡ length vs
select_formats [] = refl
select_formats (v ∷ vs) = ground (arith, select_formats vs)

length-select_of_any :
    (p : AdCopyVariant → Bool) (vs : List AdCopyVariant)
    → any p vs ≡ true
    → 1 ≤ length (select p vs)
length-select_of_any p [] h = cc
length-select_of_any p (v ∷ vs) h = ground (arith, length-select_of_any p vs)

-- A valid answer has each format once.
once :
    (f : AdCopyFormat) (r : AdCopyResult)
    → is_valid r ≡ true
    → length (select (has_format f) r.variants) ≤ 1
unfolding is_valid
once f r h =
    let three : length r.variants ≤ 3 = ground arith in
    let s : 1 ≤ length (select (has_format short) r.variants) =
      length-select_of_any (has_format short) r.variants (ground arith) in
    let m : 1 ≤ length (select (has_format medium) r.variants) =
      length-select_of_any (has_format medium) r.variants (ground arith) in
    let l : 1 ≤ length (select (has_format long) r.variants) =
      length-select_of_any (has_format long) r.variants (ground arith) in
    elim f as (λ k. length (select (has_format k) r.variants) ≤ 1) [
      | short ↦ omega (arith, select_formats r.variants)
      | medium ↦ omega (arith, select_formats r.variants)
      | long ↦ omega (arith, select_formats r.variants)
    ]

-- A valid answer with the same variants in another order is rendered as the same text.
pub render_ad_copy-Perm :
    (r s : AdCopyResult)
    → is_valid r ≡ true
    → Perm r.variants s.variants
    → render_ad_copy r ≡ render_ad_copy s
unfolding render_ad_copy
render_ad_copy-Perm r s h p = ∥∥₁_elim p (hlevel) (λ d.
    rw
      (
        by_format-Perm short d (once short r h),
        by_format-Perm medium d (once medium r h),
        by_format-Perm long d (once long r h),
      )
      refl)
