-- ===== src/Engine/Subsystem.antt =====
-- common/integration/prediction_subsystem.py: a stream of points through the change points, the
-- forecast and the policy. The ARIMA predictor is injected, as in the code.
pub mod Windows
pub mod Grades
use icmp.Base.{
  ℕ, String, Bool, true, false, Option, none, some, List, [], ◌∷◌, ltb, if◌then◌else◌, Dict, lookup,
  string_eq,
}
use icmp.Float.{Float, lit}
use icmp.Engine.Types.{RiskLevel, DataPoint}
use icmp.Engine.Threshold
use icmp.Engine.Threshold.{Info, InitError, InitResult, classify_value}
use icmp.Engine.Window
use icmp.Engine.Window.{SlidingWindow, WindowError, WindowResult, push, get_values}
use icmp.Engine.Detect.{Numeric}
use icmp.Engine.Detect.Changepoint
use icmp.Engine.Detect.Changepoint.{
  CpPurpose, ChangePointDetector, ChangePointError, ChangePointInit,
}
use icmp.Engine.Detect.Anchor.{CpAnchorResult, anchor_status}
use icmp.Engine.Forecast
use icmp.Engine.Forecast.Data.{
  ArimaResult, ForecastPolicy, ForecastPolicyResult, PolicyError, PolicyResult, Output,
}
use icmp.Engine.Forecast.{grade}

-- arima.predict(history, cp_anchor)
abbrev pub Predictor : Type 0 → Type 0
Predictor F = List F → CpAnchorResult F → ArimaResult F

pub record PredictionSubsystem (F : Type 0) : Type 0 where
  pub table : Dict String (Info F)
  pub classifier : Dict String (Info F)
  pub cp_window : SlidingWindow F
  pub history : SlidingWindow F
  pub cp : ChangePointDetector F
  pub arima : Predictor F
  pub policy : ForecastPolicy F

-- The `ValueError`s of `__init__` and of what it builds.
pub data SubsystemError (F : Type 0) : Type 0 where
  no_arima : SubsystemError F
  short_history : ℕ → ℕ → SubsystemError F
  bad_table : InitError → SubsystemError F
  bad_window : WindowError → SubsystemError F
  bad_detector : ChangePointError F → SubsystemError F
  bad_policy : PolicyError → SubsystemError F

pub data SubsystemInit (F : Type 0) : Type 0 where
  ok : PredictionSubsystem F → SubsystemInit F
  err : SubsystemError F → SubsystemInit F

-- history[-1], if it is finite
unfoldable pub last_finite : {F : Type 0} → Numeric F → List F → Option F
last_finite np [] = none
last_finite np (x ∷ []) = if np.isfinite x then some x else none
last_finite np (x ∷ y ∷ rest) = last_finite np (y ∷ rest)

-- table.get(sensor_type, {})
abbrev pub no_info : {F : Type 0} → Info F
no_info = record {
  direction = none;
  caution_limit = none;
  danger_limit = none;
  caution_high = none;
  danger_high = none;
  caution_low = none;
  danger_low = none;
}

abbrev pub info_or : {F : Type 0} → Option (Info F) → Info F
info_or none = no_info
info_or (some info) = info

-- info.get("direction", "high")
abbrev pub direction_or : Option String → String
direction_or none = "high"
direction_or (some d) = d

-- What the callers do with a subsystem.
pub data Command (F : Type 0) : Type 0 where
  pushes : DataPoint F → Command F
  predicts : ℕ → String → String → Command F

module _ {F : Type 0} ⦃f : Float F⦄ where
  -- ChangePointDetector(cp_window, purpose=PREDICT_VALIDATION)
  unfoldable pub default_detector : Numeric F → SlidingWindow F → ChangePointInit F
  default_detector np w =
      Changepoint.init np w CpPurpose.predict_validation (f.decimal 25 2) (f.decimal 5 2)
        (f.decimal 8 1) "l2" (lit 50) 8

  -- The policy given, or ForecastPolicy()
  unfoldable pub policy_or : Option (ForecastPolicy F) → PolicyResult F
  policy_or none = Forecast.init (f.decimal 2 1) (lit 2) 18 (f.decimal 5 1)
  policy_or (some p) = PolicyResult.ok p

  -- The parts of `__init__`, in the order in which it builds them.
  unfoldable pub with_policy :
      Dict String (Info F)
      → Predictor F
      → SlidingWindow F
      → SlidingWindow F
      → ChangePointInit F
      → PolicyResult F
      → SubsystemInit F
  with_policy table arima cp_window history (ChangePointInit.err e) p = err (bad_detector e)
  with_policy table arima cp_window history (ChangePointInit.ok cp) (PolicyResult.err e) =
      err (bad_policy e)
  with_policy table arima cp_window history (ChangePointInit.ok cp) (PolicyResult.ok p) =
      ok (record {
        table = table;
        classifier = table;
        cp_window = cp_window;
        history = history;
        cp = cp;
        arima = arima;
        policy = p;
      })

  unfoldable pub with_windows :
      Numeric F
      → Dict String (Info F)
      → Predictor F
      → PolicyResult F
      → WindowResult F
      → WindowResult F
      → SubsystemInit F
  unfolding with_policy default_detector
  with_windows np table arima p (WindowResult.err e) h = err (bad_window e)
  with_windows np table arima p (WindowResult.ok w) (WindowResult.err e) = err (bad_window e)
  with_windows np table arima p (WindowResult.ok w) (WindowResult.ok h) =
      with_policy table arima w h (default_detector np w) p

  unfoldable pub with_table :
      Numeric F → Predictor F → ℕ → ℕ → PolicyResult F → InitResult F → SubsystemInit F
  unfolding with_windows
  with_table np arima cp_size history_size p (InitResult.err e) = err (bad_table e)
  with_table np arima cp_size history_size p (InitResult.ok table) =
      with_windows np table arima p (Window.init cp_size) (Window.init history_size)

  -- __init__
  unfoldable pub init :
      Numeric F
      → Dict String (Info F)
      → Option (Predictor F)
      → ℕ
      → ℕ
      → Option (ForecastPolicy F)
      → SubsystemInit F
  unfolding with_table policy_or
  init np table none cp_size history_size policy = err no_arima
  init np table (some arima) cp_size history_size policy =
      if ltb history_size cp_size
      then err (short_history history_size cp_size)
      else with_table np arima cp_size history_size (policy_or policy) (Threshold.init table)

  -- push
  unfoldable pub push_point : PredictionSubsystem F → DataPoint F → PredictionSubsystem F
  unfolding push
  push_point s p = record s { cp_window = push s.cp_window p; history = push s.history p }

  unfoldable pub present_level : Dict String (Info F) → String → Option F → RiskLevel
  unfolding classify_value
  present_level table sensor none = RiskLevel.unknown
  present_level table sensor (some x) = classify_value table sensor x

  -- predict_channel; the argument `now` is the present time.
  unfoldable pub predict_channel :
      Numeric F
      → ℕ
      → PredictionSubsystem F
      → String
      → String
      → ForecastPolicyResult × PredictionSubsystem F
  unfolding anchor_status get_values last_finite present_level grade
  predict_channel np now s device sensor =
      let (anchor, cp) = anchor_status np now s.cp_window s.cp device sensor in
      let history = get_values s.history device sensor in
      let present = present_level s.classifier sensor (last_finite np history) in
      let info = info_or (lookup sensor s.table) in
      let out =
        grade s.policy (s.arima history anchor) info.caution_limit info.danger_limit
          (direction_or info.direction) present in
      (out.result, record s { cp = cp; policy = out.policy })

  unfoldable pub run_one : Numeric F → PredictionSubsystem F → Command F → PredictionSubsystem F
  unfolding push_point predict_channel
  run_one np s (pushes p) = push_point s p
  run_one np s (predicts now device sensor) = (predict_channel np now s device sensor).1

  unfoldable pub run : Numeric F → PredictionSubsystem F → List (Command F) → PredictionSubsystem F
  unfolding run_one
  run np s [] = s
  run np s (c ∷ cs) = run np (run_one np s c) cs
