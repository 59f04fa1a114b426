-- ===== src/Engine/Subsystem/Grades.antt =====
-- common/integration/prediction_subsystem.py: the grades of a subsystem over its predictions.
use icmp.Base.{ℕ, ◌<◌, String, ◌≡◌, sym, ap, subst, List, [], ◌∷◌, lookup, string_eq}
use icmp.Float.{Float}
use icmp.Engine.Window.{get_values}
use icmp.Engine.Detect.{Numeric}
use icmp.Engine.Detect.Anchor.{anchor_status}
use icmp.Engine.Forecast.{reset, warn_cond, strong_cond}
use icmp.Engine.Forecast.Data.{ForecastPolicy}
use icmp.Engine.Forecast.Calls.{Call, graded_call, Axis, axis_met}
use icmp.Engine.Forecast.Streak.{trailing, policy_after, of_channel}
use icmp.Engine.Forecast.Grades.{Confirms, conf_at, grade-Confirms}
use icmp.Engine.Subsystem.{
  PredictionSubsystem, Command, pushes, predicts, info_or, direction_or, last_finite, present_level,
  push_point, predict_channel, run_one, run,
}

module _ {F : Type 0} ⦃f : Float F⦄ where
  -- The call of `grade` that a prediction makes.
  abbrev pub call_of : Numeric F → ℕ → PredictionSubsystem F → String → String → Call F
  call_of np now s device sensor =
      let anchor = (anchor_status np now s.cp_window s.cp device sensor).0 in
      let history = get_values s.history device sensor in
      let info = info_or (lookup sensor s.table) in
      record {
        forecast = s.arima history anchor;
        caution = info.caution_limit;
        danger = info.danger_limit;
        direction = direction_or info.direction;
        present = present_level s.classifier sensor (last_finite np history);
      }

  -- The calls of `grade` that the commands make, the newest first, before those given.
  pub graded_by :
      Numeric F → PredictionSubsystem F → List (Command F) → List (Call F) → List (Call F)
  graded_by np s [] earlier = earlier
  graded_by np s (pushes p ∷ cs) earlier = graded_by np (push_point s p) cs earlier
  graded_by np s (predicts now device sensor ∷ cs) earlier =
      graded_by np (predict_channel np now s device sensor).1 cs
        (call_of np now s device sensor ∷ earlier)

  policy-run :
      (np : Numeric F) (s : PredictionSubsystem F) (cs : List (Command F)) (p : ForecastPolicy F)
      (earlier : List (Call F))
      → s.policy ≡ policy_after p earlier
      → (run np s cs).policy ≡ policy_after p (graded_by np s cs earlier)
  unfolding run run_one graded_by push_point predict_channel policy_after
  policy-run np s [] p earlier e = e
  policy-run np s (pushes q ∷ cs) p earlier e = policy-run np (push_point s q) cs p earlier e
  policy-run np s (predicts now device sensor ∷ cs) p earlier e =
      policy-run np (predict_channel np now s device sensor).1 cs p
        (call_of np now s device sensor ∷ earlier)
        (ap (λ q. (graded_call q (call_of np now s device sensor)).policy) e)

  -- After any pushes and predictions of a subsystem whose policy had no streak, a prediction confirms
  -- an axis strongly exactly if the predictions of the channel have met the strong condition K times
  -- without a break, and by the mean exactly if only the weaker condition was met K times.
  pub predict_channel-Confirms :
      (np : Numeric F) (s : PredictionSubsystem F) (cs : List (Command F)) (a : Axis) (now : ℕ)
      (device sensor : String)
      → 0 < s.policy.k
      → s.policy ≡ reset s.policy
      → Confirms
          (conf_at a (predict_channel np now (run np s cs) device sensor).0)
          s.policy.k
          (trailing (axis_met a strong_cond) (
            of_channel
              (call_of np now (run np s cs) device sensor).forecast.device_id
              (call_of np now (run np s cs) device sensor).forecast.sensor_type
              (call_of np now (run np s cs) device sensor ∷ graded_by np s cs [])))
          (trailing (axis_met a (warn_cond s.policy.margin_ratio s.policy.tau)) (
            of_channel
              (call_of np now (run np s cs) device sensor).forecast.device_id
              (call_of np now (run np s cs) device sensor).forecast.sensor_type
              (call_of np now (run np s cs) device sensor ∷ graded_by np s cs [])))
  unfolding predict_channel policy_after
  predict_channel-Confirms np s cs a now device sensor sure fresh =
      let c = call_of np now (run np s cs) device sensor in
      let calls = graded_by np s cs [] in
      subst
        (λ q.
          Confirms (conf_at a (graded_call q c).result) s.policy.k
            (trailing (axis_met a strong_cond)
              (of_channel c.forecast.device_id c.forecast.sensor_type (c ∷ calls)))
            (trailing (axis_met a (warn_cond s.policy.margin_ratio s.policy.tau))
              (of_channel c.forecast.device_id c.forecast.sensor_type (c ∷ calls))))
        (sym (policy-run np s cs (reset s.policy) [] fresh))
        (grade-Confirms a s.policy c calls sure)
