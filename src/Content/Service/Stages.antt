-- ===== src/Content/Service/Stages.antt =====
-- What a generation makes of the answers of the model.
use magna_cms.Prelude.{
  ℕ, ◌+◌, ◌≡◌, refl, ap, ◌∙◌, Text, true, Option, none, some, List, [], ◌∷◌, ◌++◌, any, length,
  length-append, append_assoc, Option-cases, inl, inr, arith, ◌≤◌, ◌⊎◌,
}
use magna_cms.Exceptions.{Exc}
use magna_cms.Models.{ContentPiece, parsed, retried, Json, Uuid, numeric_10_6}
use magna_cms.Auth.Users.{user_is}
use magna_cms.Session.{World, External, Result, ok, err, LlmRequest, LlmResult, draw}
use magna_cms.Session.Usage.{
  Totals, total_of, add_total, kept_totals, spent, spent-one, spent-two, Answers,
}
use magna_cms.Schemas.Content.{GenerateRequest, ContentResult, model_dump}
use magna_cms.Content.Repository as Pieces
use magna_cms.Content.Repository.{pieces, voice_exists, refreshed}
use magna_cms.Content.Service.{
  generate, persist, settle_outcome, try_parse, read_result, first_request, retry_request,
  maybe_brand_voice_block, new_piece, ParseOutcome, outcome_of, render,
}

-- The usage that a piece records.
abbrev pub totals_of : ContentPiece → Totals
totals_of piece = record {
  input_tokens = piece.input_tokens;
  output_tokens = piece.output_tokens;
  cost_usd = piece.cost_usd;
}

module _ (x : External) (llm : ℕ → LlmRequest → Result LlmResult) (json_loads : Text → Option Json)
    (user_id : Uuid) (request : GenerateRequest) (block : Option Text) (w : World) where
  abbrev pub first : LlmRequest
  first = first_request request block

  abbrev pub second : LlmResult → LlmRequest
  second answer = retry_request request.content_type first answer.raw_text

  -- What a model's answer is read as.
  abbrev pub reading_of : LlmResult → Option ContentResult
  reading_of answer = read_result request.content_type (json_loads answer.raw_text)

  -- The block of the prompt was found, and the rows that the new piece refers to are there.
  abbrev pub IsReady : Type 0
  IsReady =
      (maybe_brand_voice_block user_id request.brand_voice_id w ≡ (ok block, w))
      × (any (user_is user_id) w.db.users ≡ true)
      × (voice_exists request.brand_voice_id w.db.brand_voices ≡ true)

  -- The world after these requests were sent, and after the piece was stored besides.
  abbrev pub called : List LlmRequest → World
  called requests = record w { draws = w.draws + 1; llm_calls = w.llm_calls ++ requests }

  abbrev pub stored : List LlmRequest → ContentPiece → World
  stored requests piece = record w {
    draws = w.draws + 1;
    llm_calls = w.llm_calls ++ requests;
    db = record w.db { content_pieces = pieces w ++ piece ∷ [] };
  }

  abbrev pub built : LlmResult → ParseOutcome → Totals → ContentPiece
  built = new_piece (x.uuid4 w.draws) w.started user_id request first

  -- The row that is stored.
  abbrev pub piece_of : LlmResult → ParseOutcome → Totals → ContentPiece
  piece_of answer outcome totals = refreshed (built answer outcome totals)

  -- The database accepts the values of the row that gets the next id.
  abbrev pub Accepts : Type 0
  Accepts = (piece : ContentPiece) → piece.id ≡ x.uuid4 w.draws → x.piece_error piece ≡ none

  first_stage :
      (answer : LlmResult) (r : ContentResult)
      → IsReady
      → llm (length w.llm_calls) first ≡ ok answer
      → reading_of answer ≡ some r
      → generate x llm json_loads user_id request w
        ≡ Pieces.create x
            (built answer (outcome_of answer.raw_text parsed (some r)) (total_of answer))
            (called (first ∷ []))
  unfolding generate persist settle_outcome try_parse draw
  first_stage answer r (b, user, voice) l p = rw (b, l, p) refl

  second_stage :
      (answer again : LlmResult)
      → IsReady
      → llm (length w.llm_calls) first ≡ ok answer
      → reading_of answer ≡ none
      → llm (length w.llm_calls + 1) (second answer) ≡ ok again
      → generate x llm json_loads user_id request w
        ≡ Pieces.create x
            (built answer
              (outcome_of again.raw_text retried (reading_of again))
              (add_total (total_of answer) again))
            (called (first ∷ second answer ∷ []))
  unfolding generate persist settle_outcome try_parse draw
  second_stage answer again (b, user, voice) l p m =
      let calls : length (w.llm_calls ++ first ∷ []) ≡ length w.llm_calls + 1 =
        length-append w.llm_calls (first ∷ []) in
      rw (b, l, p, calls, m) (rw append_assoc refl)

  module _ (answer : LlmResult) (outcome : ParseOutcome) (totals : Totals)
      (requests : List LlmRequest) (ready : IsReady) where
    abbrev stored_piece : ContentPiece
    stored_piece = piece_of answer outcome totals

    create-accepted :
        x.piece_error stored_piece ≡ none
        → Pieces.create x (built answer outcome totals) (called requests)
          ≡ (ok stored_piece, stored requests stored_piece)
    unfolding Pieces.create
    create-accepted accepted = let (b, user, voice) = ready in rw accepted (rw (user, voice) refl)

    create-refused :
        (e : Exc)
        → x.piece_error stored_piece ≡ some e
        → Pieces.create x (built answer outcome totals) (called requests) ≡ (err e, called requests)
    unfolding Pieces.create
    create-refused e refused = rw refused refl

  pub first_stage_ends :
      (answer : LlmResult) (r : ContentResult)
      → IsReady
      → Accepts
      → llm (length w.llm_calls) first ≡ ok answer
      → reading_of answer ≡ some r
      → let piece =
          piece_of answer (outcome_of answer.raw_text parsed (some r)) (total_of answer) in
        generate x llm json_loads user_id request w ≡ (ok piece, stored (first ∷ []) piece)
  first_stage_ends answer r ready accepts l p =
      first_stage answer r ready l p
      ∙ create-accepted answer (outcome_of answer.raw_text parsed (some r)) (total_of answer)
          (first ∷ []) ready (accepts _ refl)

  pub second_stage_ends :
      (answer again : LlmResult)
      → IsReady
      → Accepts
      → llm (length w.llm_calls) first ≡ ok answer
      → reading_of answer ≡ none
      → llm (length w.llm_calls + 1) (second answer) ≡ ok again
      → let piece =
          piece_of answer
            (outcome_of again.raw_text retried (reading_of again))
            (add_total (total_of answer) again) in
        generate x llm json_loads user_id request w
        ≡ (ok piece, stored (first ∷ second answer ∷ []) piece)
  second_stage_ends answer again ready accepts l p m =
      second_stage answer again ready l p m
      ∙ create-accepted answer (outcome_of again.raw_text retried (reading_of again))
          (add_total (total_of answer) again) (first ∷ second answer ∷ []) ready (accepts _ refl)

  -- A generation whose first answer is valid sends one request, and stores a piece with the dump
  -- of the result, its rendering and the usage of that answer, if the database accepts it.
  pub generate-parsed :
      (answer : LlmResult) (r : ContentResult)
      → IsReady
      → Accepts
      → llm (length w.llm_calls) first ≡ ok answer
      → reading_of answer ≡ some r
      → (piece : ContentPiece) × (v : World) × (generate x llm json_loads user_id request w
          ≡ (ok piece, v))
        × (pieces v ≡ pieces w ++ piece ∷ [])
        × (v.llm_calls ≡ w.llm_calls ++ first ∷ [])
        × (piece.result_parse_status ≡ parsed)
        × (piece.result ≡ some (model_dump r))
        × (piece.rendered_text ≡ render r)
        × (piece.input_tokens ≡ answer.input_tokens)
        × (piece.cost_usd ≡ numeric_10_6 answer.cost_usd)
  generate-parsed answer r ready accepts l p =
      (_, _, first_stage_ends answer r ready accepts l p, refl, refl, refl, refl, refl, refl, refl)

  -- A piece of a generation that stored it or was refused by the database.
  abbrev pub IsEnd : List LlmRequest → ContentPiece → Type 0
  IsEnd requests piece =
      ((x.piece_error piece ≡ none)
        × (generate x llm json_loads user_id request w ≡ (ok piece, stored requests piece)))
      ⊎ ((e : Exc) × (x.piece_error piece ≡ some e)
          × (generate x llm json_loads user_id request w ≡ (err e, called requests)))

  ending :
      (answer : LlmResult) (outcome : ParseOutcome) (totals : Totals) (requests : List LlmRequest)
      → IsReady
      → generate x llm json_loads user_id request w
        ≡ Pieces.create x (built answer outcome totals) (called requests)
      → IsEnd requests (piece_of answer outcome totals)
  ending answer outcome totals requests ready run =
      elim (Option-cases (x.piece_error (piece_of answer outcome totals))) [
        | inl accepted ↦
            inl (accepted, run ∙ create-accepted answer outcome totals requests ready accepted)
        | inr (e, refused) ↦
            inr (e, refused, run ∙ create-refused answer outcome totals requests ready e refused)
      ]

  -- Whatever the model answers, as long as its calls answer and `json.loads` raises at most a
  -- JSONDecodeError at what they answer, a generation that is ready ends after
  -- one call or two: with a piece that it stores, or with the error that the database raises at the
  -- values of that piece, and then no row changes. The piece is charged for exactly the tokens of the
  -- calls that were made, and for their cost as the column rounds it.
  pub generate_ends :
      IsReady
      → Answers llm
      → (piece : ContentPiece) × (requests : List LlmRequest) × IsEnd requests piece
        × (1 ≤ length requests)
        × (length requests ≤ 2)
        × (totals_of piece ≡ kept_totals (spent llm (length w.llm_calls) requests))
  generate_ends ready answers =
      let n = length w.llm_calls in
      let (answer, l) = answers n first in
      let (again, m) = answers (n + 1) (second answer) in
      elim (Option-cases (reading_of answer)) [
        | inl p ↦ (
          _,
          first ∷ second answer ∷ [],
          ending answer (outcome_of again.raw_text retried (reading_of again))
              (add_total (total_of answer) again) (first ∷ second answer ∷ []) ready
              (second_stage answer again ready l p m),
          omega arith,
          omega arith,
          ap kept_totals (spent-two llm n first (second answer) answer again l m),
        )
        | inr (r, p) ↦ (
          _,
          first ∷ [],
          ending answer (outcome_of answer.raw_text parsed (some r)) (total_of answer) (first ∷ [])
              ready (first_stage answer r ready l p),
          omega arith,
          omega arith,
          ap kept_totals (spent-one llm n first answer l),
        )
      ]
