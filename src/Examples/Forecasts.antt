-- ===== src/Examples/Forecasts.antt =====
-- Three forecasts of one channel, the first on the degraded path, and a policy with K = 2.
use icmp.Base.{some, List, [], ◌∷◌, arith}
use icmp.Float.Fixed.{Fixed, fixed_float, whole}
use icmp.Engine.{normal}
use icmp.Engine.Forecast.{reset, warn_cond, strong_cond}
use icmp.Engine.Forecast.Data.{
  ForecastPath, normal_path, degraded_path, ArimaResult, ForecastPolicy,
}
use icmp.Engine.Forecast.Calls.{Call, graded_call, danger_axis, axis_met}
use icmp.Engine.Forecast.Streak.{trailing, policy_after, of_channel}
use icmp.Engine.Forecast.Grades.{Confirms, conf_at, grade-Confirms}

abbrev forecast : ForecastPath → ArimaResult Fixed
forecast path = record {
  timestamp = 5;
  device_id = "d1";
  sensor_type = "co";
  path = path;
  forecast_mean = whole 20 ∷ whole 210 ∷ whole 230 ∷ [];
  ci_lower = whole 10 ∷ whole 180 ∷ whole 205 ∷ [];
  ci_upper = whole 30 ∷ whole 240 ∷ whole 260 ∷ [];
  forecast_steps = 3;
  drift_tstat = some (whole 3);
  reason = "";
}

abbrev call : ForecastPath → Call Fixed
call path = record {
  forecast = forecast path;
  caution = some (whole 25);
  danger = some (whole 200);
  direction = "high";
  present = normal;
}

abbrev policy : ForecastPolicy Fixed
policy = record {
  margin_ratio = whole 0;
  tau = whole 2;
  k = 2;
  beta = whole 0;
  warn_streak = [];
  strong_streak = [];
}

abbrev earlier : List (Call Fixed)
earlier = call normal_path ∷ call degraded_path ∷ []

grade-Confirms_example :
    Confirms
      (conf_at danger_axis
        (graded_call (policy_after (reset policy) earlier) (call normal_path)).result)
      2
      (trailing
        (axis_met danger_axis strong_cond)
        (of_channel "d1" "co" (call normal_path ∷ earlier)))
      (trailing
        (axis_met danger_axis (warn_cond (whole 0) (whole 2)))
        (of_channel "d1" "co" (call normal_path ∷ earlier)))
grade-Confirms_example = grade-Confirms danger_axis policy (call normal_path) earlier (omega arith)
