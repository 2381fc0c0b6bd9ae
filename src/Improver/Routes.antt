-- ===== src/Improver/Routes.antt =====
-- backend/app/api/v1/routers/improve.py
pub mod Reads
use magna_cms.Prelude.{ℕ, String, Text, Bool, Option, none, some, List, map, get_or}
use magna_cms.Exceptions.{Exc, app, app_error, not_found, other}
use magna_cms.Models.{Improvement, ImprovementGoal, Json, Uuid, Time, Cost}
use magna_cms.Session.{World, Action, External, Result, pure, raise, commit, ◌>>=◌, ◌>>◌}
use magna_cms.Schemas.Values as Values
use magna_cms.Schemas.Values.{texts_of}
use magna_cms.Schemas.Improvement.{ImproveRequest, ImprovementChangesSummary, summary_of}
use magna_cms.Content.Routes.{build_preview}
use magna_cms.Improver.Repository as Improvements
use magna_cms.Improver.Repository.{get_for_user, list_for_user}
use magna_cms.Improver.Service as Service
use magna_cms.Improver.Service.{Reader}

pub record ImprovementResponse : Type 0 where
  pub id : Uuid
  pub original_text : Text
  pub improved_text : Text
  pub goal : ImprovementGoal
  pub new_audience : Option Text
  pub explanation : List Text
  pub changes_summary : ImprovementChangesSummary
  pub original_word_count : ℕ
  pub improved_word_count : ℕ
  pub model_id : String
  pub input_tokens : ℕ
  pub output_tokens : ℕ
  pub cost_usd : Cost
  pub created_at : Time
  pub deleted_at : Option Time

pub record ImprovementListItem : Type 0 where
  pub id : Uuid
  pub goal : ImprovementGoal
  pub original_preview : Text
  pub improved_preview : Text
  pub original_word_count : ℕ
  pub improved_word_count : ℕ
  pub created_at : Time

abbrev pub improvement_not_found : Exc
improvement_not_found = app (app_error not_found "Improvement not found." "IMPROVEMENT_NOT_FOUND")

abbrev pub response_with : Improvement → List Text → ImprovementChangesSummary → ImprovementResponse
response_with r explanation changes_summary = record {
  id = r.id;
  original_text = r.original_text;
  improved_text = r.improved_text;
  goal = r.goal;
  new_audience = r.new_audience;
  explanation = explanation;
  changes_summary = changes_summary;
  original_word_count = get_or r.original_word_count 0;
  improved_word_count = get_or r.improved_word_count 0;
  model_id = r.model_id;
  input_tokens = r.input_tokens;
  output_tokens = r.output_tokens;
  cost_usd = r.cost_usd;
  created_at = r.created_at;
  deleted_at = r.deleted_at;
}

-- `_preview` is `_build_preview` of the dashboard, letter by letter.
abbrev pub list_item : Improvement → ImprovementListItem
list_item row = record {
  id = row.id;
  goal = row.goal;
  original_preview = build_preview row.original_text;
  improved_preview = build_preview row.improved_text;
  original_word_count = get_or row.original_word_count 0;
  improved_word_count = get_or row.improved_word_count 0;
  created_at = row.created_at;
}

abbrev pub or_not_found : Option Improvement → Action Improvement
or_not_found none = raise improvement_not_found
or_not_found (some r) = pure r

abbrev pub both :
    Improvement → Option (List Text) → Option ImprovementChangesSummary → Action ImprovementResponse
both r (some explanation) (some changes_summary) =
    pure (response_with r explanation changes_summary)
both r _ _ = raise (other "ValidationError")

module _ (float_of : Json → Option Text) where
  -- `_project`
  unfoldable pub project : Improvement → Action ImprovementResponse
  project r = both r (texts_of (some r.explanation)) (summary_of float_of r.changes_summary)

module _ (x : External) (p : Reader) (current_user : Uuid) where
  unfoldable pub improve : ImproveRequest → Action ImprovementResponse
  improve body = do r ← Service.improve x p current_user body; commit; project p.float_of r

  unfoldable pub list_improvements : Action (List ImprovementListItem)
  list_improvements = do rows ← list_for_user current_user; pure (map list_item rows)

  unfoldable pub get_improvement : Uuid → Action ImprovementResponse
  get_improvement improvement_id = do
    found ← get_for_user improvement_id current_user
    r ← or_not_found found
    project p.float_of r

  unfoldable pub delete_improvement : Uuid → Action ImprovementResponse
  delete_improvement improvement_id = do
    found ← Improvements.soft_delete x improvement_id current_user
    r ← or_not_found found
    commit
    project p.float_of r
