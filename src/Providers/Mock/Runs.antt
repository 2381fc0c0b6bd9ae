-- ===== src/Providers/Mock/Runs.antt =====
-- What the services make of the mock's answers.
use magna_cms.Prelude.{◌≡◌, refl, Text, false, Option, none, some, [], ◌∷◌, ◌++◌, is_none}
use magna_cms.Models.{
  Json, Uuid, ContentPiece, ContentType, blog_post, linkedin_post, ad_copy, email, parsed,
  numeric_10_6,
}
use magna_cms.Session.{World, External, ok}
use magna_cms.Schemas.BlogPost
use magna_cms.Schemas.LinkedInPost
use magna_cms.Schemas.AdCopy
use magna_cms.Schemas.Email
use magna_cms.Schemas.Content.{GenerateRequest, model_validate}
use magna_cms.Content.Repository.{pieces}
use magna_cms.Content.Service as Service
use magna_cms.Content.Service.{registry, first_request}
use magna_cms.Content.Service.Stages.{IsReady, Accepts, generate-parsed}
use magna_cms.Providers.Mock.{canned_response, generate}

-- The canned answer of a content type.
abbrev pub answer_of : ContentType → Json
answer_of t = canned_response (registry t).value

canned-valid : (t : ContentType) → is_none (model_validate t (answer_of t)) ≡ false
unfolding canned_response registry model_validate BlogPost.of_json BlogPost.is_valid
    LinkedInPost.of_json LinkedInPost.is_valid AdCopy.of_json AdCopy.is_valid Email.of_json
    Email.is_valid
canned-valid blog_post = refl
canned-valid linkedin_post = refl
canned-valid ad_copy = refl
canned-valid email = refl

present {ℓ} : {A : Type ℓ} (o : Option A) → is_none o ≡ false → (a : A) × (o ≡ some a)
present none h = cc
present (some a) h = (a, refl)

content_type-eq :
    (request : GenerateRequest) (block : Option Text)
    → (first_request request block).content_type ≡ (registry request.content_type).value
unfolding first_request
content_type-eq request block = refl

-- A generation with the mock as its model, of any type of content, whose rows are there and whose
-- canned answer survives being written and read as JSON, if the database accepts the row, sends one request and stores a piece with
-- a result that was read at once, at no cost: the canned answers fit the schemas.
pub generate-mock :
    (x : External) (json_dumps : Json → Text) (json_loads : Text → Option Json) (user_id : Uuid)
    (request : GenerateRequest) (block : Option Text) (w : World)
    → json_loads (json_dumps (answer_of request.content_type))
      ≡ some (answer_of request.content_type)
    → IsReady x (generate json_dumps) json_loads user_id request block w
    → Accepts x (generate json_dumps) json_loads user_id request block w
    → (piece : ContentPiece) × (v : World) × (Service.generate x
          (generate json_dumps)
          json_loads
          user_id
          request
          w
        ≡ (ok piece, v))
      × (pieces v ≡ pieces w ++ piece ∷ [])
      × (v.llm_calls ≡ w.llm_calls ++ first_request request block ∷ [])
      × (piece.result_parse_status ≡ parsed)
      × (piece.cost_usd ≡ 0)
unfolding generate first_request numeric_10_6
generate-mock x json_dumps json_loads user_id request block w law ready accepts =
    let (r, valid) =
      present (model_validate request.content_type (answer_of request.content_type))
        (canned-valid request.content_type) in
    let (piece, v, run, rows, calls, status, result, text, tokens, cost) =
      generate-parsed x (generate json_dumps) json_loads user_id request block w _ r ready accepts
        refl (rw law valid) in
    (piece, v, run, rows, calls, status, cost)
