-- ===== src/Health.antt =====
-- backend/app/api/v1/routers/health.py, and `check_db_health` of backend/app/db/session.py. Whether
-- the engine connects and runs `SELECT 1` is a parameter: an exception of either is `err`.
use magna_cms.Prelude.{Text, Bool, true, false}
use magna_cms.Session.{Result, ok, err}
use magna_cms.Config.{Environment}

pub data DependencyState : Type 0 where
  state_ok state_unknown state_down : DependencyState

pub record DependencyStatus : Type 0 where
  pub db : DependencyState
  pub redis : DependencyState
  pub openai : DependencyState

pub record HealthResponse : Type 0 where
  pub version : Text
  pub environment : Environment
  pub dependencies : DependencyStatus

-- `check_db_health`, from what connecting and `SELECT 1` come to.
unfoldable pub check_db_health : {A : Type 0} → Result A → Bool
check_db_health (ok a) = true
check_db_health (err e) = false

abbrev pub db_state : Bool → DependencyState
db_state true = state_ok
db_state false = state_down

-- `GET /health`: the probe of the database is not an error of the route.
unfoldable pub health : {A : Type 0} → Text → Environment → Result A → HealthResponse
unfolding check_db_health
health app_version environment probe = record {
  version = app_version;
  environment = environment;
  dependencies = record {
    db = db_state (check_db_health probe);
    redis = state_unknown;
    openai = state_unknown;
  };
}
