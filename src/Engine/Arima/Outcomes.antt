-- ===== src/Engine/Arima/Outcomes.antt =====
-- gas/modules/arima.py: on which path a forecast is made, and how long it is.
use icmp.Base.{
  ℕ, zero, suc, ◌-◌, ◌≤◌, ◌<◌, String, ◌≡◌, refl, ap, ◌∙◌, subst, ◌⊎◌, inl, inr, Bool, true, false,
  not, ◌&&◌, Option, none, some, List, [], ◌∷◌, map, length, any, drop, ltb, Bool-cases, arith,
  length-drop, if◌then◌else◌,
}
use icmp.Float.{Float, lit, ◌<!◌}
use icmp.Engine.Forecast.Data.{ForecastPath, normal_path, degraded_path, unknown_path}
use icmp.Engine.Detect.{is_nan, without_nan}
use icmp.Engine.Detect.Changepoint.{indices, valid_indices}
use icmp.Engine.Detect.Changepoint.Signal.{length-indices}
use icmp.Engine.Detect.Anchor.{CpAnchorResult}
use icmp.Engine.Arima.{
  Fit, fitted, fit_failed, Fitting, ArimaPredictor, Prediction, Request, segment_size, steps_from,
  request_of, unknown, forecast, diff, normal_of, normal_forecast, all_finite, degraded_of,
  degraded_forecast, short_forecast, predict_segment, filled, share_of, predict_checked, predict,
}

-- np.interp gives one value for each x, and get_forecast(steps) one mean and one interval for each step.
pub record KeepsSizes {F : Type 0} (np : Fitting F) : Type 0 where
  pub length-interp : (x xp : List ℕ) (fp : List F) → length (np.interp x xp fp) ≡ length x
  pub length-fit :
      (order : ℕ × ℕ × ℕ) (trend : String) (segment : List F) (steps : ℕ)
      (mean lower upper : List F) (params : Option (F × F))
      → np.fit order trend segment steps ≡ fitted mean lower upper params
      → (length mean ≡ steps) × (length lower ≡ steps) × (length upper ≡ steps)

-- The path of a forecast of a segment of n values, and the lengths of its three lists.
pub data Outcome {F : Type 0} (d : ArimaPredictor F) (contamination : Bool) (n : ℕ)
    : ForecastPath → ℕ → ℕ → ℕ → Type 0 where
  refused : Outcome d contamination n unknown_path 0 0 0
  regular :
      {m l u : ℕ}
      → d.min_segment ≤ n
      → contamination ≡ false
      → m ≡ d.forecast_steps
      → l ≡ d.forecast_steps
      → u ≡ d.forecast_steps
      → Outcome d contamination n normal_path m l u
  degraded :
      {m l u : ℕ}
      → 6 ≤ n
      → (contamination ≡ true) ⊎ (n < d.min_segment)
      → m ≡ d.forecast_steps
      → l ≡ d.forecast_steps
      → u ≡ d.forecast_steps
      → Outcome d contamination n degraded_path m l u

pub record Predicted {F : Type 0} (d : ArimaPredictor F) (contamination : Bool) (n : ℕ)
    (r : Prediction F) : Type 0 where
  pub size : r.segment_length ≡ n
  pub outcome :
      Outcome d contamination n r.arima.path
        (length r.arima.forecast_mean)
        (length r.arima.ci_lower)
        (length r.arima.ci_upper)

pub length-steps_from : (first n : ℕ) → length (steps_from first n) ≡ n
unfolding steps_from
length-steps_from first zero = refl
length-steps_from first (suc n) = ap suc (length-steps_from (suc first) n)

pub length-map : {A B : Type 0} (g : A → B) (xs : List A) → length (map g xs) ≡ length xs
length-map g [] = refl
length-map g (x ∷ xs) = ap suc (length-map g xs)

segment_size_le : (m n : ℕ) (a : Option ℕ) (rest : ℕ) → segment_size m n a rest ≤ n
unfolding segment_size
segment_size_le m n none rest = omega arith
segment_size_le m n (some a) rest = omega arith

guard-Predicted :
    {F : Type 0} {d : ArimaPredictor F} {c : Bool} {n : ℕ} (b : Bool) {x y : Prediction F}
    → Predicted d c n x
    → (b ≡ false → Predicted d c n y)
    → Predicted d c n (if b then x else y)
guard-Predicted true h g = h
guard-Predicted false h g = g refl

module _ {F : Type 0} ⦃f : Float F⦄ where
  length-diff : (xs : List F) → length (diff xs) ≡ length xs - 1
  unfolding diff
  length-diff [] = refl
  length-diff (x ∷ []) = refl
  length-diff (x ∷ y ∷ xs) = omega (arith, length-diff (y ∷ xs))

  unknown-Predicted :
      (d : ArimaPredictor F) (c : Bool) (n : ℕ) (q : Request) (reason : String)
      → Predicted d c n (unknown d q n reason)
  unfolding unknown
  unknown-Predicted d c n q reason = record { size = refl; outcome = refused }

  length-steps :
      (g : ℕ → F) (d : ArimaPredictor F)
      → length (map g (steps_from 1 d.forecast_steps)) ≡ d.forecast_steps
  length-steps g d =
      length-map g (steps_from 1 d.forecast_steps) ∙ length-steps_from 1 d.forecast_steps

  forecast-Predicted :
      (d : ArimaPredictor F) (c : Bool) (q : Request) (path : ForecastPath) (n : ℕ)
      (mean lower upper : List F) (drift tstat : Option F) (reason : String)
      → Outcome d c n path (length mean) (length lower) (length upper)
      → Predicted d c n (forecast d q path n mean lower upper drift tstat reason)
  unfolding forecast
  forecast-Predicted d c q path n mean lower upper drift tstat reason h = record {
    size = refl;
    outcome = h;
  }

  degraded_of-Predicted :
      (np : Fitting F) (d : ArimaPredictor F) (c : Bool) (q : Request) (n : ℕ)
      (mean lower upper : List F) (drift : F) (reason : String)
      → Outcome d c n degraded_path (length mean) (length lower) (length upper)
      → Predicted d c n (degraded_of np d q n mean lower upper drift reason)
  unfolding degraded_of
  degraded_of-Predicted np d c q n mean lower upper drift reason h =
      guard-Predicted (not (all_finite np mean)) (unknown-Predicted d c n q _)
        (λ finite. forecast-Predicted d c q degraded_path n mean lower upper _ _ reason h)

  degraded-Predicted :
      (np : Fitting F) (d : ArimaPredictor F) (c : Bool) (q : Request) (segment : List F)
      (reason : String)
      → (c ≡ true) ⊎ (length segment < d.min_segment)
      → Predicted d c (length segment) (degraded_forecast np d q segment reason)
  unfolding degraded_forecast
  degraded-Predicted np d c q segment reason why =
      guard-Predicted (ltb (length (diff segment)) 5) (unknown-Predicted d c (length segment) q _)
        (λ e.
          let long : 6 ≤ length segment = ground (arith, length-diff segment) in
          degraded_of-Predicted np d c q (length segment) _ _ _ _ reason
            (degraded long why (length-steps _ d) (length-steps _ d) (length-steps _ d)))

  normal_of-Predicted :
      (np : Fitting F) (d : ArimaPredictor F) (c : Bool) (q : Request) (n : ℕ) (r : Fit F)
      → ((mean lower upper : List F) (params : Option (F × F))
          → r ≡ fitted mean lower upper params
          → (length mean ≡ d.forecast_steps)
            × (length lower ≡ d.forecast_steps)
            × (length upper ≡ d.forecast_steps))
      → d.min_segment ≤ n
      → c ≡ false
      → Predicted d c n (normal_of np d q n r)
  unfolding normal_of
  normal_of-Predicted np d c q n (fit_failed e) sized long clean = unknown-Predicted d c n q _
  normal_of-Predicted np d c q n (fitted mean lower upper params) sized long clean =
      let (m, l, u) = sized mean lower upper params refl in
      guard-Predicted (not (all_finite np mean && (all_finite np lower && all_finite np upper)))
        (unknown-Predicted d c n q _)
        (λ finite.
          forecast-Predicted d c q normal_path n mean lower upper _ _ _ (regular long clean m l u))

  short-Predicted :
      (np : Fitting F) (d : ArimaPredictor F) (c : Bool) (q : Request) (segment : List F)
      (slope : Option F)
      → length segment < d.min_segment
      → Predicted d c (length segment) (short_forecast np d q segment slope)
  unfolding short_forecast
  short-Predicted np d c q segment none few = unknown-Predicted d c (length segment) q _
  short-Predicted np d c q segment (some slope) few =
      guard-Predicted (slope <! d.slope_gate) (unknown-Predicted d c (length segment) q _)
        (λ steep. degraded-Predicted np d c q segment _ (inr few))

  contaminated_or-Predicted :
      (np : Fitting F)
      → KeepsSizes np
      → (d : ArimaPredictor F) (c : Bool) (q : Request) (segment : List F) (reason : String)
      → d.min_segment ≤ length segment
      → Predicted d c
          (length segment)
          (if c then degraded_forecast np d q segment reason else normal_forecast np d q segment)
  unfolding normal_forecast
  contaminated_or-Predicted np k d true q segment reason long =
      degraded-Predicted np d true q segment reason (inl refl)
  contaminated_or-Predicted np k d false q segment reason long =
      normal_of-Predicted np d false q (length segment) _
        (k.length-fit d.order d.trend segment d.forecast_steps) long refl

  segment-Predicted :
      (np : Fitting F)
      → KeepsSizes np
      → (d : ArimaPredictor F) (c : Bool) (q : Request) (segment : List F)
      → Predicted d c (length segment) (predict_segment np d q c segment)
  unfolding predict_segment
  segment-Predicted np k d c q segment = elim (Bool-cases (ltb (length segment) d.min_segment)) [
    | inl e ↦ rw e (short-Predicted np d c q segment _ (ground arith))
    | inr e ↦ rw e (
        guard-Predicted
          (lit (length segment) <! f.mul d.segment_horizon_ratio (lit d.forecast_steps))
          (unknown-Predicted d c (length segment) q _)
          (λ enough. contaminated_or-Predicted np k d c q segment _ (ground arith)))
  ]

  length-filled :
      (np : Fitting F)
      → KeepsSizes np
      → (segment : List F) → length (filled np segment) ≡ length segment
  unfolding filled
  length-filled np k segment = elim (Bool-cases (any is_nan segment)) [
    | inl e ↦ rw e (
        k.length-interp (indices 0 segment) (valid_indices (indices 0 segment) segment)
          (without_nan segment)
        ∙ length-indices 0 segment)
    | inr e ↦ rw e refl
  ]

  checked-Predicted :
      (np : Fitting F)
      → KeepsSizes np
      → (d : ArimaPredictor F) (c : Bool) (q : Request) (segment : List F)
      → Predicted d c (length segment) (predict_checked np d q c segment)
  unfolding predict_checked
  checked-Predicted np k d c q segment =
      guard-Predicted (any np.isinf segment) (unknown-Predicted d c (length segment) q _) (λ finite.
        guard-Predicted (share_of segment <! d.min_valid_ratio)
          (unknown-Predicted d c (length segment) q _)
          (λ enough.
            subst (λ n. Predicted d c n (predict_segment np d q c (filled np segment)))
              (length-filled np k segment) (segment-Predicted np k d c q (filled np segment))))

  -- A prediction is made of the segment behind the anchor, cut to the history and the longest segment:
  -- refused without a forecast, or on the regular path of a clean segment that is long enough, or on the
  -- degraded path of a contaminated or short segment of at least 6 values; each of its three lists has
  -- one entry for each step, when np.interp keeps the length and the fit gives one entry for each step.
  pub predict-Predicted :
      (np : Fitting F)
      → KeepsSizes np
      → (d : ArimaPredictor F) (now : ℕ) (history : List F) (anchor : CpAnchorResult F)
      → Predicted d anchor.contamination
          (segment_size d.max_segment (length history) anchor.anchor_index anchor.segment_length)
          (predict np d now history anchor)
  unfolding predict
  predict-Predicted np k d now history anchor =
      let n =
        segment_size d.max_segment (length history) anchor.anchor_index anchor.segment_length in
      let le =
        segment_size_le d.max_segment (length history) anchor.anchor_index anchor.segment_length in
      let cut : length (drop (length history - n) history) ≡ n =
        omega (arith, length-drop (length history - n) history) in
      guard-Predicted (ltb n d.degraded_min_segment)
        (unknown-Predicted d anchor.contamination n _ _)
        (λ enough.
          subst
            (λ m. Predicted d anchor.contamination m (
              predict_checked np d (request_of now anchor) anchor.contamination
                (drop (length history - n) history)))
            cut
            (checked-Predicted np k d anchor.contamination _ (drop (length history - n) history)))
