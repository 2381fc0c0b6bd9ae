-- ===== src/Tests/Improver.antt =====
-- Improvements with concrete providers.
use magna_cms.Prelude.{◌≤◌, ◌≡◌, refl, true, Text, codes, Option, none, some, List, [], length}
use magna_cms.Models.{Improvement, Json, null, bool, number, str, arr, obj, shorter}
use magna_cms.Session.{World, ok, LlmRequest, LlmResult}
use magna_cms.Session.Usage.{spent, kept_totals}
use magna_cms.Schemas.Values.{filled}
use magna_cms.Schemas.Improvement.{ImproveRequest, is_improve_request}
use magna_cms.Improver.Service.{Reader}
use magna_cms.Improver.Service.Endings.{IsEnd, improve_ends, totals_of}
use magna_cms.Improver.Routes.{ImprovementResponse, improve, get_improvement}
use magna_cms.Improver.Routes.Reads.{improve-get_improvement}
use magna_cms.Tests.World.{external, world}

abbrev no : LlmResult
no = record {
  raw_text = codes "no";
  model = "gpt";
  input_tokens = 10;
  output_tokens = 20;
  cost_usd = 3;
}

abbrev float_of : Json → Option Text
float_of (number t) = some t
float_of _ = none

-- A model whose answers are never valid.
abbrev never : Reader
never = record {
  llm = λ n r. ok no;
  json_loads = λ t. none;
  str_of = λ j. codes "None";
  float_of = float_of;
}

abbrev shorten : ImproveRequest
shorten = record {
  original_text = codes "Tea is a hot drink.";
  goal = shorter;
  new_audience = none;
}

abbrev here : World
here = world []

shorten-is_improve_request : is_improve_request shorten ≡ true
unfolding is_improve_request
shorten-is_improve_request = refl

improve_ends_example :
    (r : Improvement) × (requests : List LlmRequest) × IsEnd external never 7 shorten here requests
      r
    × (filled r.improved_text ≡ true)
    × (2 ≤ length requests)
    × (length requests ≤ 4)
    × (totals_of r ≡ kept_totals (spent never.llm 0 requests))
improve_ends_example =
    improve_ends external never 7 shorten here shorten-is_improve_request refl (λ n r. (no, refl))

float_of_again : (k : Json) (t : Text) → float_of k ≡ some t → float_of (number t) ≡ some t
float_of_again null t e = cc
float_of_again (bool b) t e = cc
float_of_again (number s) t e = refl
float_of_again (str s) t e = cc
float_of_again (arr js) t e = cc
float_of_again (obj ms) t e = cc

improve-get_improvement_example :
    (response : ImprovementResponse) × (v : World) × (improve external never 7 shorten here
      ≡ (ok response, v))
    × (v.committed ≡ v.db)
    × (get_improvement external never 7 response.id v ≡ (ok response, v))
improve-get_improvement_example =
    improve-get_improvement external never 7 shorten here shorten-is_improve_request refl
      (λ n r. (no, refl)) (λ r h. refl) (record { again = float_of_again; zero_float = refl }) refl
