-- ===== src/Examples/Subsystems.antt =====
-- A subsystem with a predictor that repeats the last value three times.
use icmp.Base.{◌≡◌, String, refl, none, some, List, [], ◌∷◌, last, arith, Dict}
use icmp.Float.Fixed.{Fixed, fixed_float, whole}
use icmp.Engine.Threshold.{Info}
use icmp.Engine.Window.{get}
use icmp.Engine.Window.History
use icmp.Engine.Detect.Changepoint.{CpPurpose}
use icmp.Engine.Forecast.{reset, warn_cond, strong_cond}
use icmp.Engine.Forecast.Data.{normal_path}
use icmp.Engine.Forecast.Calls.{Call, danger_axis, axis_met}
use icmp.Engine.Forecast.Streak
use icmp.Engine.Forecast.Streak.{trailing}
use icmp.Engine.Forecast.Grades.{Confirms, conf_at}
use icmp.Engine.Subsystem.{
  PredictionSubsystem, Predictor, Command, pushes, predicts, ok, init, run, predict_channel,
}
use icmp.Engine.Subsystem.Windows.{pushed, get-run}
use icmp.Engine.Subsystem.Grades.{call_of, graded_by, predict_channel-Confirms}
use icmp.Examples.Detectors.{numeric, point}

abbrev repeat : Predictor Fixed
repeat history anchor = record {
  timestamp = anchor.timestamp;
  device_id = anchor.device_id;
  sensor_type = anchor.sensor_type;
  path = normal_path;
  forecast_mean = last 1 history;
  ci_lower = last 1 history;
  ci_upper = last 1 history;
  forecast_steps = 1;
  drift_tstat = some (whole 3);
  reason = "";
}

abbrev table : Dict String (Info Fixed)
table =
    (
      "co",
      record {
        direction = some "high";
        caution_limit = some (whole 3);
        danger_limit = some (whole 5);
        caution_high = none;
        danger_high = none;
        caution_low = none;
        danger_low = none;
      },
    )
    ∷ []

abbrev subsystem : PredictionSubsystem Fixed
subsystem = record {
  table = table;
  classifier = table;
  cp_window = record { window_size = 2; channels = [] };
  history = record { window_size = 3; channels = [] };
  cp = record {
    purpose = CpPurpose.predict_validation;
    min_size_ratio = fixed_float.decimal 25 2;
    significance_level = fixed_float.decimal 5 2;
    min_valid_ratio = fixed_float.decimal 8 1;
    cost_model = "l2";
    magnitude_gate = whole 50;
    contamination_block = 8;
    min_size = 2;
    last_contamination = [];
  };
  arima = repeat;
  policy = record {
    margin_ratio = whole 0;
    tau = whole 2;
    k = 1;
    beta = whole 1;
    warn_streak = [];
    strong_streak = [];
  };
}

built : init numeric table (some repeat) 2 3 (some subsystem.policy) ≡ ok subsystem
unfolding init icmp.Engine.Threshold.init icmp.Engine.Window.init
    icmp.Engine.Detect.Changepoint.init
built = refl

abbrev commands : List (Command Fixed)
commands =
    pushes (point 1)
    ∷ pushes (point 2)
    ∷ predicts 7 "d1" "co"
    ∷ pushes (point 9)
    ∷ pushes (point 9)
    ∷ []

get-run_example :
    (get (run numeric subsystem commands).history "d1" "co"
      ≡ last 3 (History.of_channel ("d1", "co") (pushed commands)))
    × (get (run numeric subsystem commands).cp_window "d1" "co"
        ≡ last 2 (get (run numeric subsystem commands).history "d1" "co"))
get-run_example =
    get-run numeric table (some repeat) 2 3 (some subsystem.policy) subsystem commands "d1" "co"
      built

abbrev prediction : Call Fixed
prediction = call_of numeric 8 (run numeric subsystem commands) "d1" "co"

predict_channel-Confirms_example :
    Confirms
      (conf_at danger_axis (predict_channel numeric 8 (run numeric subsystem commands) "d1" "co").0)
      1
      (trailing (axis_met danger_axis strong_cond) (
        Streak.of_channel prediction.forecast.device_id prediction.forecast.sensor_type
          (prediction ∷ graded_by numeric subsystem commands [])))
      (trailing (axis_met danger_axis (warn_cond (whole 0) (whole 2))) (
        Streak.of_channel prediction.forecast.device_id prediction.forecast.sensor_type
          (prediction ∷ graded_by numeric subsystem commands [])))
unfolding reset
predict_channel-Confirms_example =
    predict_channel-Confirms numeric subsystem commands danger_axis 8 "d1" "co" (omega arith) refl
