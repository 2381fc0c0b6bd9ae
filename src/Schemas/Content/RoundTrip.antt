-- ===== src/Schemas/Content/RoundTrip.antt =====
-- A result that is stored is a result that can be read back.
use magna_cms.Prelude.{◌≡◌, Bool, true, Option, none, some, ap, subst, Bool-cases, inl, inr}
use magna_cms.Models.{Json, ContentType, blog_post, linkedin_post, ad_copy, email}
use magna_cms.Schemas.Values.{◌>>=◌, checked}
use magna_cms.Schemas.BlogPost
use magna_cms.Schemas.LinkedInPost
use magna_cms.Schemas.Email
use magna_cms.Schemas.AdCopy
use magna_cms.Schemas.Content.{
  ContentResult, blog_result, linkedin_result, email_result, ad_copy_result, model_validate,
  model_dump,
}

module _ {A : Type 0} (ok : A → Bool) (wrap : A → ContentResult) where
  -- Validation by a shape: what it returns is a valid value of the shape.
  checked-inv :
      (o : Option A) {r : ContentResult}
      → (checked ok o >>= λ a. some (wrap a)) ≡ some r
      → (a : A) × (ok a ≡ true) × (wrap a ≡ r)
  checked-inv none e = cc
  checked-inv (some a) e = elim (Bool-cases (ok a)) [
    | inl p ↦ let e' = rw p at e in (a, p, cc)
    | inr p ↦ let e' = rw p at e in cc
  ]

  -- Reading a valid value again: `dump` writes it, `of_json` reads it.
  checked-again :
      (of_json : Json → Option A) (dump : A → Json) (o : Option A) {r : ContentResult}
      → ((a : A) → of_json (dump a) ≡ some a)
      → (checked ok o >>= λ a. some (wrap a)) ≡ some r
      → (a : A) × (wrap a ≡ r) × ((checked ok (of_json (dump a)) >>= λ b. some (wrap b)) ≡ some r)
  checked-again of_json dump o h e =
      let (a, valid, same) = checked-inv o e in (a, same, rw (h a, valid) (ap some same))

transfer :
    (t : ContentType) {s r : ContentResult}
    → s ≡ r
    → model_validate t (model_dump s) ≡ some r
    → model_validate t (model_dump r) ≡ some r
transfer t {s} {r} same = subst (λ q. model_validate t (model_dump q) ≡ some r) same

-- What a content type's model accepts, it accepts again after it was dumped, and as the same
-- result.
pub model_validate-model_dump :
    (t : ContentType) (j : Json) {r : ContentResult}
    → model_validate t j ≡ some r
    → model_validate t (model_dump r) ≡ some r
unfolding model_validate model_dump
model_validate-model_dump blog_post j e =
    let (a, same, again) =
      checked-again BlogPost.is_valid blog_result BlogPost.of_json BlogPost.model_dump
        (BlogPost.of_json j) BlogPost.of_json-model_dump e in
    transfer blog_post same again
model_validate-model_dump linkedin_post j e =
    let (a, same, again) =
      checked-again LinkedInPost.is_valid linkedin_result LinkedInPost.of_json
        LinkedInPost.model_dump (LinkedInPost.of_json j) LinkedInPost.of_json-model_dump e in
    transfer linkedin_post same again
model_validate-model_dump email j e =
    let (a, same, again) =
      checked-again Email.is_valid email_result Email.of_json Email.model_dump (Email.of_json j)
        Email.of_json-model_dump e in
    transfer email same again
model_validate-model_dump ad_copy j e =
    let (a, same, again) =
      checked-again AdCopy.is_valid ad_copy_result AdCopy.of_json AdCopy.model_dump
        (AdCopy.of_json j) AdCopy.of_json-model_dump e in
    transfer ad_copy same again
