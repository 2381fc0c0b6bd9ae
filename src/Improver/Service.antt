-- ===== src/Improver/Service.antt =====
-- backend/app/services/improver_service.py: a call that analyzes a text and one that rewrites it,
-- each with one more call if the answer is invalid, and a fallback if that one is too.
pub mod Stages
pub mod Endings
use magna_cms.Prelude.{
  ℕ, ◌+◌, String, Text, codes, Bool, true, false, Option, none, some, List, [], ◌∷◌, ◌++◌, get_or,
  is_empty, if◌then◌else◌,
}
use magna_cms.Exceptions.{other}
use magna_cms.Models.{
  Improvement, ImprovementGoal, Json, str, arr, obj, Items, nil, cons, Members, Uuid, Time, Cost,
}
use magna_cms.Session.{
  World, Action, External, Result, LlmRequest, LlmResult, pure, raise, call_llm, draw,
  transaction_time, ◌>>=◌, ◌>>◌,
}
use magna_cms.Schemas.Values as Values
use magna_cms.Schemas.Values.{value_of, to_texts, filled, opened}
use magna_cms.Schemas.Improvement.{
  ImproveRequest, ImprovementChangesSummary, ImprovementResult, summary_dump, result_validate,
}
use magna_cms.Prompts.Improver.{
  build_analyze, build_rewrite, analyze_system_prompt, rewrite_system_prompt, corrective_analyze,
  corrective_rewrite,
}
use magna_cms.Renderers.Words.{word_count}
use magna_cms.Session.Usage.{Totals, total_of, add_total}
use magna_cms.Improver.Repository as Improvements

-- What `_parse_analyze` returns.
pub record Analysis : Type 0 where
  pub issues : List Text
  pub planned_changes : List Text

-- `_AnalyzeOutcome` and `_RewriteOutcome`, with their usage as `Totals`.
pub record AnalyzeOutcome : Type 0 where
  pub planned_changes : List Text
  pub issues : List Text
  pub model : String
  pub totals : Totals

pub record RewriteOutcome : Type 0 where
  pub result : ImprovementResult
  pub degraded : Bool
  pub model : String
  pub totals : Totals

-- The requests of `_run_analyze`.
unfoldable pub analyze_request : ImproveRequest → LlmRequest
analyze_request request = record {
  system_prompt = analyze_system_prompt;
  user_prompt = build_analyze request.original_text request.goal request.new_audience;
  strict = true;
  content_type = "improver_analysis";
}

-- The requests of `_run_rewrite`.
unfoldable pub rewrite_request : ImproveRequest → List Text → LlmRequest
rewrite_request request planned_changes = record {
  system_prompt = rewrite_system_prompt;
  user_prompt =
      build_rewrite request.original_text request.goal planned_changes request.new_audience;
  strict = true;
  content_type = "improver_rewrite";
}

-- The second request of a stage: free of the schema, with the invalid answer in the prompt.
unfoldable pub retry_of : Text → LlmRequest → LlmResult → LlmRequest
retry_of corrective first attempt1 = record first {
  user_prompt =
      first.user_prompt
      ++ codes "\n\nPrevious response (invalid):\n"
      ++ attempt1.raw_text
      ++ codes "\n\n"
      ++ corrective;
  strict = false;
}

abbrev pub no_analysis : Analysis
no_analysis = record { issues = []; planned_changes = [] }

abbrev pub analyzed : Option Analysis → LlmResult → Totals → AnalyzeOutcome
analyzed parsed attempt1 totals =
    let found = get_or parsed no_analysis in
    record {
      planned_changes = found.planned_changes;
      issues = found.issues;
      model = attempt1.model;
      totals = totals;
    }

abbrev pub rewritten : ImprovementResult → Bool → LlmResult → Totals → RewriteOutcome
rewritten result degraded attempt1 totals = record {
  result = result;
  degraded = degraded;
  model = attempt1.model;
  totals = totals;
}

-- The result of two invalid answers: the second one as it came, or the original text.
unfoldable pub fallback : ImproveRequest → Text → ImprovementResult
fallback request raw = record {
  improved_text = if is_empty raw then request.original_text else raw;
  explanation = codes "Rewrite returned in fallback mode — formatting may be inconsistent." ∷ [];
  changes_summary = record {
    tone_shift = codes "unchanged";
    length_change_pct = codes "0.0";
    key_additions = [];
    key_removals = [];
  };
}

abbrev pub new_improvement :
    Uuid → Time → Uuid → ImproveRequest → AnalyzeOutcome → RewriteOutcome → Improvement
new_improvement id at user_id request analyze rewrite = record {
  id = id;
  created_at = at;
  updated_at = at;
  deleted_at = none;
  user_id = user_id;
  original_text = request.original_text;
  improved_text = rewrite.result.improved_text;
  goal = request.goal;
  new_audience = request.new_audience;
  explanation = to_texts rewrite.result.explanation;
  changes_summary = summary_dump rewrite.result.changes_summary;
  original_word_count = some (word_count request.original_text);
  improved_word_count = some (word_count rewrite.result.improved_text);
  model_id = rewrite.model;
  input_tokens = analyze.totals.input_tokens + rewrite.totals.input_tokens;
  output_tokens = analyze.totals.output_tokens + rewrite.totals.output_tokens;
  cost_usd = analyze.totals.cost_usd + rewrite.totals.cost_usd;
}

module _ (str_of : Json → Text) where
  -- `str(x)`; that of a text is the text.
  abbrev pub as_text : Json → Text
  as_text (str t) = t
  as_text j = str_of j

  abbrev pub texts_in : Items → List Text
  texts_in nil = []
  texts_in (cons j js) = as_text j ∷ texts_in js

  abbrev pub both_lists : Option Json → Option Json → Option Analysis
  both_lists (some (arr issues)) (some (arr changes)) =
      some (record { issues = texts_in issues; planned_changes = texts_in changes })
  both_lists _ _ = none

  -- `_parse_analyze`, of the decoded answer; invalid JSON is `none`.
  unfoldable pub analysis_of : Option Json → Option Analysis
  analysis_of (some (obj payload)) =
      both_lists (value_of "issues" payload) (value_of "planned_changes" payload)
  analysis_of _ = none

-- `_parse_rewrite`, of the decoded answer.
unfoldable pub rewrite_of : (Json → Option Text) → Option Json → Option ImprovementResult
rewrite_of float_of none = none
rewrite_of float_of (some payload) = result_validate float_of payload

-- What a stage asks: the provider, `json.loads` (`none` is a JSONDecodeError; its other exceptions
-- are the call's), `str` and Pydantic's reading of a float.
pub record Reader : Type 0 where
  pub llm : ℕ → LlmRequest → Result LlmResult
  pub json_loads : Text → Option Json
  pub str_of : Json → Text
  pub float_of : Json → Option Text

module _ (x : External) (p : Reader) where
  abbrev pub parse_analyze : LlmResult → Option Analysis
  parse_analyze answer = analysis_of p.str_of (p.json_loads answer.raw_text)

  abbrev pub parse_rewrite : LlmResult → Option ImprovementResult
  parse_rewrite answer = rewrite_of p.float_of (p.json_loads answer.raw_text)

  unfoldable pub settle_analyze : LlmRequest → LlmResult → Option Analysis → Action AnalyzeOutcome
  settle_analyze first attempt1 (some found) =
      pure (analyzed (some found) attempt1 (total_of attempt1))
  settle_analyze first attempt1 none = do
    attempt2 ← call_llm p.llm (retry_of corrective_analyze first attempt1)
    pure (analyzed (parse_analyze attempt2) attempt1 (add_total (total_of attempt1) attempt2))

  unfoldable pub run_analyze : ImproveRequest → Action AnalyzeOutcome
  run_analyze request = do
    attempt1 ← call_llm p.llm (analyze_request request)
    settle_analyze (analyze_request request) attempt1 (parse_analyze attempt1)

  -- The model of the fallback is constructed under the same bounds.
  unfoldable pub degrade : ImproveRequest → LlmResult → LlmResult → Action RewriteOutcome
  degrade request attempt1 attempt2 =
      let result = fallback request attempt2.raw_text in
      if filled result.improved_text
      then pure (rewritten result true attempt1 (add_total (total_of attempt1) attempt2))
      else raise (other "ValidationError")

  unfoldable pub settle_second :
      ImproveRequest → LlmResult → LlmResult → Option ImprovementResult → Action RewriteOutcome
  settle_second request attempt1 attempt2 (some result) =
      pure (rewritten result false attempt1 (add_total (total_of attempt1) attempt2))
  settle_second request attempt1 attempt2 none = degrade request attempt1 attempt2

  unfoldable pub settle_rewrite :
      ImproveRequest → LlmRequest → LlmResult → Option ImprovementResult → Action RewriteOutcome
  settle_rewrite request first attempt1 (some result) =
      pure (rewritten result false attempt1 (total_of attempt1))
  settle_rewrite request first attempt1 none = do
    attempt2 ← call_llm p.llm (retry_of corrective_rewrite first attempt1)
    settle_second request attempt1 attempt2 (parse_rewrite attempt2)

  unfoldable pub run_rewrite : ImproveRequest → List Text → Action RewriteOutcome
  run_rewrite request planned_changes = do
    let first = rewrite_request request planned_changes
    attempt1 ← call_llm p.llm first
    settle_rewrite request first attempt1 (parse_rewrite attempt1)

  unfoldable pub store :
      Uuid → ImproveRequest → AnalyzeOutcome → RewriteOutcome → Action Improvement
  store user_id request analyze rewrite = do
    n ← draw
    at ← transaction_time
    Improvements.create x (new_improvement (x.uuid4 n) at user_id request analyze rewrite)

  unfoldable pub improve : Uuid → ImproveRequest → Action Improvement
  improve user_id request = do
    analyze ← run_analyze request
    rewrite ← run_rewrite request analyze.planned_changes
    store user_id request analyze rewrite
