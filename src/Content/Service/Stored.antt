-- ===== src/Content/Service/Stored.antt =====
-- What a generation stores can be read again.
use magna_cms.Prelude.{
  ℕ, ◌+◌, ◌≡◌, refl, Text, Option, none, some, List, [], ◌∷◌, length, Option-cases, inl, inr, ◌⊎◌,
}
use magna_cms.Models.{ContentPiece, ContentType, Json, Uuid, parsed, retried}
use magna_cms.Session.{World, External, Result, ok, LlmRequest, LlmResult}
use magna_cms.Session.Usage.{Totals, total_of, add_total, Answers}
use magna_cms.Schemas.Content.{GenerateRequest, ContentResult, model_validate, model_dump}
use magna_cms.Schemas.Content.RoundTrip.{model_validate-model_dump}
use magna_cms.Content.Service.{
  ParseOutcome, outcome_of, generate, read_result, project_result, validated, result_jsonb,
}
use magna_cms.Content.Service.Stages.{
  IsReady, piece_of, stored, first_stage_ends, second_stage_ends, Accepts, first, second,
  reading_of,
}

-- A result that is none, or is accepted again after it was dumped.
abbrev pub IsReadable : ContentType → Option ContentResult → Type 0
IsReadable t o =
    (o ≡ none) ⊎ ((r : ContentResult) × (o ≡ some r) × (model_validate t (model_dump r) ≡ some r))

pub read_result-IsReadable :
    (t : ContentType) (j : Option Json) (r : ContentResult)
    → read_result t j ≡ some r
    → model_validate t (model_dump r) ≡ some r
read_result-IsReadable t none r e = cc
read_result-IsReadable t (some j) r e = model_validate-model_dump t j e

result_of_outcome : (raw : Text) (o : Option ContentResult) → (outcome_of raw retried o).result ≡ o
result_of_outcome raw none = refl
result_of_outcome raw (some r) = refl

-- A stored readable result is projected as itself.
pub project_result_lem :
    (t : ContentType) (o : ParseOutcome) (w : World)
    → IsReadable t o.result
    → project_result t (result_jsonb o) w ≡ (ok o.result, w)
unfolding project_result validated
project_result_lem t o w (inl e) = rw e refl
project_result_lem t o w (inr (r, e, again)) = rw (e, again) refl

module _ (x : External) (llm : ℕ → LlmRequest → Result LlmResult) (json_loads : Text → Option Json)
    (user_id : Uuid) (request : GenerateRequest) (block : Option Text) (w : World) where
  abbrev pub the_piece : LlmResult → ParseOutcome → Totals → ContentPiece
  the_piece = piece_of x llm json_loads user_id request block w

  abbrev pub the_world : List LlmRequest → ContentPiece → World
  the_world = stored x llm json_loads user_id request block w

  -- A generation whose calls answer stores a readable result.
  pub generate_stored :
      IsReady x llm json_loads user_id request block w
      → Accepts x llm json_loads user_id request block w
      → Answers llm
      → (answer : LlmResult) × (o : ParseOutcome) × (totals : Totals) × (requests : List LlmRequest)
        × (generate x llm json_loads user_id request w
            ≡ (ok (the_piece answer o totals), the_world requests (the_piece answer o totals)))
        × IsReadable request.content_type o.result
  generate_stored ready accepts answers =
      let ask = first x llm json_loads user_id request block w in
      let n = length w.llm_calls in
      let (answer, l) = answers n ask in
      let next = second x llm json_loads user_id request block w answer in
      let (again, m) = answers (n + 1) next in
      let read = reading_of x llm json_loads user_id request block w in
      elim (Option-cases (read answer)) [
        | inl e ↦
            let result = result_of_outcome again.raw_text (read again) in
            (
              answer,
              outcome_of again.raw_text retried (read again),
              add_total (total_of answer) again,
              ask ∷ next ∷ [],
              second_stage_ends x llm json_loads user_id request block w answer again ready accepts
                  l e m,
              elim (Option-cases (read again)) [
                | inl f ↦ inl (rw f refl)
                | inr (r, f) ↦ inr (
                  r,
                  rw f refl,
                  read_result-IsReadable request.content_type (json_loads again.raw_text) r f,
                )
              ],
            )
        | inr (r, e) ↦ (
          answer,
          outcome_of answer.raw_text parsed (some r),
          total_of answer,
          ask ∷ [],
          first_stage_ends x llm json_loads user_id request block w answer r ready accepts l e,
          inr (
            r,
            refl,
            read_result-IsReadable request.content_type (json_loads answer.raw_text) r e,
          ),
        )
      ]
