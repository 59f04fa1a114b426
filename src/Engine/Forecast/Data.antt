-- ===== src/Engine/Forecast/Data.antt =====
-- enums/forecast_level.py, the result records of forecast_policy.py and of gas/modules/arima.py.
use icmp.Base.{ℕ, String, Bool, Option, List, Dict}
use icmp.Engine.Types.{RiskLevel}

pub data ForecastConfidence : Type 0 where
  normal tentative confirmed_warning confirmed_strong unknown : ForecastConfidence

-- ForecastConfidence.value
abbrev pub conf_text : ForecastConfidence → String
conf_text normal = "정상"
conf_text tentative = "잠정"
conf_text confirmed_warning = "확정-경고"
conf_text confirmed_strong = "확정-강"
conf_text unknown = "판정불가"

-- _CONF_RANK
abbrev pub conf_rank : ForecastConfidence → ℕ
conf_rank normal = 0
conf_rank unknown = 0
conf_rank tentative = 1
conf_rank confirmed_warning = 2
conf_rank confirmed_strong = 3

-- ARIMAResult.path takes these three values.
pub data ForecastPath : Type 0 where
  normal_path degraded_path unknown_path : ForecastPath

abbrev pub path_text : ForecastPath → String
path_text normal_path = "normal"
path_text degraded_path = "degraded"
path_text unknown_path = "unknown"

-- ARIMAResult: the fields that the policy reads.
pub record ArimaResult (F : Type 0) : Type 0 where
  pub timestamp : ℕ
  pub device_id : String
  pub sensor_type : String
  pub path : ForecastPath
  pub forecast_mean : List F
  pub ci_lower : List F
  pub ci_upper : List F
  pub forecast_steps : ℕ
  pub drift_tstat : Option F
  pub reason : String

pub record ForecastPolicyResult : Type 0 where
  pub timestamp : ℕ
  pub device_id : String
  pub sensor_type : String
  pub caution_confidence : ForecastConfidence
  pub danger_confidence : ForecastConfidence
  pub headline_severity : Option String
  pub headline_confidence : ForecastConfidence
  pub caution_eta_step : Option ℕ
  pub danger_eta_step : Option ℕ
  pub path : ForecastPath
  pub forecast_steps : ℕ
  pub present_level : RiskLevel
  pub corroborated : Bool
  pub reason : String

-- (device_id, sensor_type, 'caution' or 'danger')
abbrev pub Key : Type 0
Key = String × (String × String)

pub record ForecastPolicy (F : Type 0) : Type 0 where
  pub margin_ratio : F
  pub tau : F
  pub k : ℕ
  pub beta : F
  pub warn_streak : Dict Key ℕ
  pub strong_streak : Dict Key ℕ

-- The `ValueError`s of `__init__`, in the order of its tests.
pub data PolicyError : Type 0 where
  negative_margin negative_tau no_confirm bad_beta : PolicyError

pub data PolicyResult (F : Type 0) : Type 0 where
  ok : ForecastPolicy F → PolicyResult F
  err : PolicyError → PolicyResult F

-- What `_grade_axis` leaves: the policy, the confidence of the axis, and its first step.
pub record Graded (F : Type 0) : Type 0 where
  pub policy : ForecastPolicy F
  pub conf : ForecastConfidence
  pub eta : Option ℕ

-- What `grade` leaves.
pub record Output (F : Type 0) : Type 0 where
  pub policy : ForecastPolicy F
  pub result : ForecastPolicyResult
