-- ===== src/Content/Routes/Generated.antt =====
-- What a GET of a piece reads after the POST that generated it.
use magna_cms.Prelude.{
  ℕ, ◌≡◌, refl, ◌∙◌, Text, false, Option, none, [], ◌∷◌, ◌++◌, any, select, select-append,
  select_of_any-false, ==_refl,
}
use magna_cms.Models.{Json, Uuid}
use magna_cms.Session.{World, External, Result, ok, LlmRequest, LlmResult, commit}
use magna_cms.Session.Usage.{Answers}
use magna_cms.Schemas.Content.{GenerateRequest}
use magna_cms.Content.Repository.{pieces, piece_is}
use magna_cms.Content.Repository.Restore.{get_for_user-active}
use magna_cms.Content.Routes.{
  GenerateResponse, ContentDetailResponse, generate, get_content, or_raise, detail_with,
  generated_with,
}
use magna_cms.Content.Service.Stages.{IsReady, Accepts}
use magna_cms.Content.Service.Stored.{generate_stored, project_result_lem, the_piece, the_world}

module _ (x : External) (llm : ℕ → LlmRequest → Result LlmResult) (json_loads : Text → Option Json)
    (user_id : Uuid) (request : GenerateRequest) (block : Option Text) (w : World) where
  -- A user's POST of a request that is ready, under a fresh id and with calls that answer, if the
  -- database accepts the values of its row: it commits and returns the piece, and a GET of its id then returns the same type, result, text,
  -- status and number of words, for the topic that was asked for.
  pub generate-get_content :
      IsReady x llm json_loads user_id request block w
      → Accepts x llm json_loads user_id request block w
      → Answers llm
      → any (piece_is (x.uuid4 w.draws)) (pieces w) ≡ false
      → (response : GenerateResponse) × (shown : ContentDetailResponse) × (v : World) × (generate x
            llm json_loads user_id request w
          ≡ (ok response, v))
        × (v.committed ≡ v.db)
        × (get_content x user_id response.content_id v ≡ (ok shown, v))
        × (shown.content_type ≡ response.content_type)
        × (shown.result ≡ response.result)
        × (shown.rendered_text ≡ response.rendered_text)
        × (shown.result_parse_status ≡ response.result_parse_status)
        × (shown.word_count ≡ response.word_count)
        × (shown.topic ≡ request.topic)
        × (shown.deleted_at ≡ none)
  unfolding generate get_content or_raise commit
  generate-get_content ready accepts answers fresh =
      let (answer, o, totals, requests, run, readable) =
        generate_stored x llm json_loads user_id request block w ready accepts answers in
      let piece = the_piece x llm json_loads user_id request block w answer o totals in
      let u = the_world x llm json_loads user_id request block w requests piece in
      let v = record u { committed = u.db } in
      let projected = project_result_lem request.content_type o v readable in
      let row : select (piece_is piece.id) (pieces w ++ piece ∷ []) ≡ piece ∷ [] =
        select-append (piece_is piece.id) (pieces w) (piece ∷ [])
        ∙ rw (select_of_any-false (piece_is piece.id) (pieces w) fresh, ==_refl piece.id) refl in
      let found = get_for_user-active piece.id user_id v piece row refl refl in
      (
        generated_with piece o.result,
        detail_with piece o.result,
        v,
        rw (run, projected) refl,
        refl,
        rw (found, projected) refl,
        refl,
        refl,
        refl,
        refl,
        refl,
        refl,
        refl,
      )
