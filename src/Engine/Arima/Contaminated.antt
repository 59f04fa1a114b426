-- ===== src/Engine/Arima/Contaminated.antt =====
-- gas/modules/arima.py under common/integration/prediction_subsystem.py: what a moving window leaves of
-- the grades.
use icmp.Base.{
  ℕ, ◌<◌, String, ◌≡◌, ◌≢◌, refl, sym, ap, ◌∙◌, Bool, true, false, List, [], ◌∷◌, string_eq, arith,
}
use icmp.Float.{Float}
use icmp.Engine.Window.{get_values}
use icmp.Engine.Detect.{Numeric}
use icmp.Engine.Detect.Anchor.{anchor_status}
use icmp.Engine.Forecast.{reset, warn_cond, strong_cond}
use icmp.Engine.Forecast.Data.{
  ForecastConfidence, ForecastPath, confirmed_strong, confirmed_warning, ArimaResult,
}
use icmp.Engine.Forecast.Writes.{next}
use icmp.Engine.Forecast.Calls.{Call, Axis, axis_met, on_normal_path}
use icmp.Engine.Forecast.Streak.{trailing, of_channel, trailing-own}
use icmp.Engine.Forecast.Grades.{Confirms, conf_at}
use icmp.Engine.Subsystem.{
  PredictionSubsystem, Predictor, Command, pushes, predicts, push_point, predict_channel, run_one,
  run,
}
use icmp.Engine.Subsystem.Grades.{call_of, graded_by, predict_channel-Confirms}
use icmp.Engine.Arima.{Fitting, ArimaPredictor, predict}
use icmp.Engine.Arima.Outcomes.{KeepsSizes, Outcome, refused, regular, degraded, predict-Predicted}

-- A prediction is not confirmed.
pub record IsUnconfirmed (conf : ForecastConfidence) : Type 0 where
  pub not_strong : conf ≢ confirmed_strong
  pub not_warning : conf ≢ confirmed_warning

no_run-IsUnconfirmed :
    {conf : ForecastConfidence} {k strong warn : ℕ}
    → 0 < k
    → strong ≡ 0
    → warn ≡ 0
    → Confirms conf k strong warn
    → IsUnconfirmed conf
no_run-IsUnconfirmed h s w v = record {
  not_strong = λ e. absurd (omega (arith, v.strongly.0 e));
  not_warning = λ e. absurd (omega (arith, (v.by_mean.0 e).1));
}

module _ {F : Type 0} ⦃f : Float F⦄ where
  -- The predictor as the subsystem has it, with the time of its clock.
  abbrev pub predictor_of : Fitting F → ArimaPredictor F → ℕ → Predictor F
  predictor_of ft d clock history anchor = (predict ft d clock history anchor).arima

  arima-run :
      (np : Numeric F) (s : PredictionSubsystem F) (cs : List (Command F))
      → (run np s cs).arima ≡ s.arima
  unfolding run run_one push_point predict_channel
  arima-run np s [] = refl
  arima-run np s (pushes p ∷ cs) = arima-run np (push_point s p) cs
  arima-run np s (predicts now device sensor ∷ cs) =
      arima-run np (predict_channel np now s device sensor).1 cs

  off_regular :
      {d : ArimaPredictor F} {n m l u : ℕ} {c : Bool} {p : ForecastPath}
      → Outcome d c n p m l u
      → c ≡ true
      → on_normal_path p ≡ false
  off_regular refused e = refl
  off_regular (regular long clean m l u) e = absurd (ground arith)
  off_regular (degraded long why m l u) e = refl

  no_run :
      (a : Axis) (cond : ArimaResult F → F → Bool) (c : Call F) (calls : List (Call F))
      → on_normal_path c.forecast.path ≡ false
      → trailing
          (axis_met a cond)
          (of_channel c.forecast.device_id c.forecast.sensor_type (c ∷ calls))
        ≡ 0
  no_run a cond c calls e =
      let unmet : axis_met a cond c ≡ false = ground arith in
      sym (trailing-own (axis_met a cond) c calls)
      ∙ ap
          (λ b. next b (
            trailing (axis_met a cond)
              (of_channel c.forecast.device_id c.forecast.sensor_type calls)))
          unmet

  -- After any pushes and predictions of a subsystem with this predictor, and a policy that had no
  -- streak, a prediction of a channel whose newest block of values has moved confirms no axis.
  pub predict_channel-IsUnconfirmed :
      (np : Numeric F) (ft : Fitting F)
      → KeepsSizes ft
      → (d : ArimaPredictor F) (clock : ℕ) (s : PredictionSubsystem F) (cs : List (Command F))
        (a : Axis) (now : ℕ) (device sensor : String)
      → s.arima ≡ predictor_of ft d clock
      → 0 < s.policy.k
      → s.policy ≡ reset s.policy
      → (anchor_status np now
          (run np s cs).cp_window
          (run np s cs).cp
          device
          sensor).0.contamination
        ≡ true
      → IsUnconfirmed (conf_at a (predict_channel np now (run np s cs) device sensor).0)
  predict_channel-IsUnconfirmed np ft k d clock s cs a now device sensor own sure fresh moved =
      let v = run np s cs in
      let anchor = (anchor_status np now v.cp_window v.cp device sensor).0 in
      let history = get_values v.history device sensor in
      let c = call_of np now v device sensor in
      let same : v.arima history anchor ≡ predictor_of ft d clock history anchor =
        ap (λ g. g history anchor) (arima-run np s cs ∙ own) in
      let off : on_normal_path c.forecast.path ≡ false =
        ap (λ r. on_normal_path r.path) same
        ∙ off_regular (predict-Predicted ft k d clock history anchor).outcome moved in
      no_run-IsUnconfirmed sure (no_run a strong_cond c (graded_by np s cs []) off)
        (no_run a (warn_cond s.policy.margin_ratio s.policy.tau) c (graded_by np s cs []) off)
        (predict_channel-Confirms np s cs a now device sensor sure fresh)
