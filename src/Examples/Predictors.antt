-- ===== src/Examples/Predictors.antt =====
-- A predictor whose fit repeats a value, alone and in a subsystem with a moving window.
use icmp.Base.{
  ℕ, zero, suc, ◌≡◌, refl, true, false, none, some, List, [], ◌∷◌, map, length, ap, ◌∙◌, arith,
  Bool,
}
use icmp.Float.Fixed.{Fixed, fixed_float, whole}
use icmp.Engine.Detect.Changepoint.{CpPurpose}
use icmp.Engine.Detect.Anchor.{CpAnchorResult, anchor_status}
use icmp.Engine.Forecast.{reset}
use icmp.Engine.Forecast.Calls.{danger_axis}
use icmp.Engine.Forecast.Grades.{conf_at}
use icmp.Engine.Subsystem.{PredictionSubsystem, Command, pushes, run, predict_channel}
use icmp.Engine.Arima.{
  Fitting, fitted, ArimaPredictor, ArimaInit, init, segment_size, steps_from, predict,
}
use icmp.Engine.Arima.Outcomes.{
  KeepsSizes, Predicted, predict-Predicted, length-map, length-steps_from,
}
use icmp.Engine.Arima.Contaminated.{IsUnconfirmed, predictor_of, predict_channel-IsUnconfirmed}
use icmp.Examples.Detectors.{numeric, point, mean, first}

abbrev repeated : ℕ → List Fixed
repeated steps = map (λ k. whole 9) (steps_from 1 steps)

abbrev fitting : Fitting Fixed
fitting = record {
  isfinite = λ x. fixed_float.le x x;
  isinf = λ x. false;
  median = mean;
  sqrt = λ x. x;
  interp = λ x xp fp. map (λ i. first fp) x;
  fit = λ order trend segment steps.
      fitted (repeated steps) (repeated steps) (repeated steps) (some (whole 1, whole 3));
}

length-repeated : (steps : ℕ) → length (repeated steps) ≡ steps
length-repeated steps = length-map (λ k. whole 9) (steps_from 1 steps) ∙ length-steps_from 1 steps

sized :
    (steps : ℕ) {m l u : List Fixed} {params : _}
    → fitted (repeated steps) (repeated steps) (repeated steps) (some (whole 1, whole 3))
      ≡ fitted m l u params
    → (length m ≡ steps) × (length l ≡ steps) × (length u ≡ steps)
sized steps e = ground (arith, length-repeated steps)

fitting-KeepsSizes : KeepsSizes fitting
fitting-KeepsSizes = record {
  length-interp = λ x xp fp. length-map (λ i. first fp) x;
  length-fit = λ order trend segment steps m l u params e. sized steps e;
}

abbrev predictor : ArimaPredictor Fixed
predictor = record {
  order = (0, 1, 1);
  trend = "t";
  forecast_steps = 3;
  min_segment = 6;
  max_segment = 8;
  segment_horizon_ratio = whole 1;
  min_valid_ratio = fixed_float.decimal 8 1;
  degraded_min_segment = 6;
  slope_gate = whole 1;
}

accepted : init predictor ≡ ArimaInit.ok predictor
unfolding init
accepted = refl

abbrev history : List Fixed
history =
    whole 1 ∷ whole 2 ∷ whole 3 ∷ whole 4 ∷ whole 5 ∷ whole 6 ∷ whole 7 ∷ whole 8 ∷ whole 9 ∷ []

abbrev anchor : CpAnchorResult Fixed
anchor = record {
  timestamp = 5;
  device_id = "d1";
  sensor_type = "co";
  anchor_index = some 2;
  segment_length = 7;
  contamination = false;
  trigger = false;
  breakpoints = 2 ∷ [];
  gated_breakpoints = 2 ∷ [];
  magnitude_gate = whole 3;
  window_size = 9;
  reason = "";
}

predict-Predicted_example :
    Predicted predictor false
      (segment_size 8 9 (some 2) 7)
      (predict fitting predictor 5 history anchor)
predict-Predicted_example = predict-Predicted fitting fitting-KeepsSizes predictor 5 history anchor

abbrev subsystem : PredictionSubsystem Fixed
subsystem = record {
  table = [];
  classifier = [];
  cp_window = record { window_size = 2; channels = [] };
  history = record { window_size = 9; channels = [] };
  cp = record {
    purpose = CpPurpose.predict_validation;
    min_size_ratio = fixed_float.decimal 25 2;
    significance_level = fixed_float.decimal 5 2;
    min_valid_ratio = fixed_float.decimal 8 1;
    cost_model = "l2";
    magnitude_gate = whole 3;
    contamination_block = 1;
    min_size = 1;
    last_contamination = [];
  };
  arima = predictor_of fitting predictor 5;
  policy = record {
    margin_ratio = whole 0;
    tau = whole 2;
    k = 1;
    beta = whole 1;
    warn_streak = [];
    strong_streak = [];
  };
}

abbrev commands : List (Command Fixed)
commands = pushes (point 1) ∷ pushes (point 9) ∷ []

moved :
    (anchor_status numeric 8
      (run numeric subsystem commands).cp_window
      (run numeric subsystem commands).cp
      "d1"
      "co").0.contamination
    ≡ true
unfolding anchor_status run icmp.Base.append
moved = refl

predict_channel-IsUnconfirmed_example :
    IsUnconfirmed
      (conf_at danger_axis (predict_channel numeric 8 (run numeric subsystem commands) "d1" "co").0)
unfolding reset
predict_channel-IsUnconfirmed_example =
    predict_channel-IsUnconfirmed numeric fitting fitting-KeepsSizes predictor 5 subsystem commands
      danger_axis 8 "d1" "co" refl (omega arith) refl moved
