-- ===== src/Engine/Arima.antt =====
-- gas/modules/arima.py: GasARIMAPredictor, which fits each forecast to the segment behind the anchor.
-- (power/modules/arima.py has the same steps for the channels of power.)
pub mod Outcomes
pub mod Contaminated
use icmp.Base.{
  ℕ, zero, suc, ◌+◌, ◌-◌, String, Bool, true, false, not, ◌&&◌, ◌||◌, Option, none, some, List, [],
  ◌∷◌, map, length, all, any, drop, ltb, leb, if◌then◌else◌, format, decimal_text,
}
use Prim.Native.Nat.{min}
use icmp.Float.{Float, lit, ◌<!◌, ◌<=◌}
use icmp.Engine.Forecast.Data.{ForecastPath, normal_path, degraded_path, unknown_path, ArimaResult}
use icmp.Engine.Detect.{is_nan, without_nan}
use icmp.Engine.Detect.Changepoint.{indices, valid_indices}
use icmp.Engine.Detect.Anchor.{CpAnchorResult}

-- What ARIMA(segment, order, trend).fit() and get_forecast(steps) end with: the mean and the bounds of
-- the interval, with the first parameter and its t value if they can be read; or the name of the
-- exception.
pub data Fit (F : Type 0) : Type 0 where
  fitted : List F → List F → List F → Option (F × F) → Fit F
  fit_failed : String → Fit F

-- numpy's functions and the fit of statsmodels.
pub record Fitting (F : Type 0) : Type 0 where
  pub isfinite : F → Bool
  pub isinf : F → Bool
  pub median : List F → F
  pub sqrt : F → F
  pub interp : List ℕ → List ℕ → List F → List F
  pub fit : ℕ × ℕ × ℕ → String → List F → ℕ → Fit F

pub record ArimaPredictor (F : Type 0) : Type 0 where
  pub order : ℕ × ℕ × ℕ
  pub trend : String
  pub forecast_steps : ℕ
  pub min_segment : ℕ
  pub max_segment : ℕ
  pub segment_horizon_ratio : F
  pub min_valid_ratio : F
  pub degraded_min_segment : ℕ
  pub slope_gate : F

-- The `ValueError`s of `__init__`, in the order of its tests; an order is a triple by its type.
pub data ArimaError : Type 0 where
  bad_steps bad_min_segment bad_max_segment bad_valid_ratio : ArimaError
  short_degraded long_degraded bad_slope_gate : ArimaError

pub data ArimaInit (F : Type 0) : Type 0 where
  ok : ArimaPredictor F → ArimaInit F
  err : ArimaError → ArimaInit F

-- ARIMAResult: what the policy reads, with the other fields.
pub record Prediction (F : Type 0) : Type 0 where
  pub arima : ArimaResult F
  pub drift : Option F
  pub segment_length : ℕ
  pub anchor_index : Option ℕ
  pub order : ℕ × ℕ × ℕ

-- The length of the segment, of `total` values.
unfoldable pub segment_size : ℕ → ℕ → Option ℕ → ℕ → ℕ
segment_size max_segment total none rest = min total max_segment
segment_size max_segment total (some anchor) rest = min (min rest max_segment) total

-- 1, ..., H as floats are made of these.
unfoldable pub steps_from : ℕ → ℕ → List ℕ
steps_from first zero = []
steps_from first (suc n) = first ∷ steps_from (suc first) n

-- What the parts of a call of `predict` share.
pub record Request : Type 0 where
  pub now : ℕ
  pub device_id : String
  pub sensor_type : String
  pub anchor_index : Option ℕ

abbrev pub request_of : {F : Type 0} → ℕ → CpAnchorResult F → Request
request_of now anchor = record {
  now = now;
  device_id = anchor.device_id;
  sensor_type = anchor.sensor_type;
  anchor_index = anchor.anchor_index;
}

module _ {F : Type 0} ⦃f : Float F⦄ where
  -- __init__
  unfoldable pub init : ArimaPredictor F → ArimaInit F
  init d =
      if ltb d.forecast_steps 1
      then err bad_steps
      else if ltb d.min_segment 2
      then err bad_min_segment
      else if ltb d.max_segment d.min_segment
      then err bad_max_segment
      else if not (lit 0 <= d.min_valid_ratio && d.min_valid_ratio <= lit 1)
      then err bad_valid_ratio
      else if ltb d.degraded_min_segment 6
      then err short_degraded
      else if ltb d.min_segment d.degraded_min_segment
      then err long_degraded
      else if d.slope_gate <! lit 0
      then err bad_slope_gate
      else ok d

  -- np.diff
  unfoldable pub diff : List F → List F
  diff [] = []
  diff (x ∷ []) = []
  diff (x ∷ y ∷ xs) = f.sub y x ∷ diff (y ∷ xs)

  -- segment[-1]
  unfoldable pub last_value : List F → F
  last_value [] = f.nan
  last_value (x ∷ []) = x
  last_value (x ∷ y ∷ xs) = last_value (y ∷ xs)

  -- _robust_slope
  unfoldable pub robust_slope : Fitting F → List F → Option F
  unfolding diff
  robust_slope np segment =
      let slope = np.median (diff segment) in
      if ltb (length segment) 2 then none else if np.isfinite slope then some slope else none

  -- _unknown
  unfoldable pub unknown : ArimaPredictor F → Request → ℕ → String → Prediction F
  unknown d q seg_len reason = record {
    arima = record {
      timestamp = q.now;
      device_id = q.device_id;
      sensor_type = q.sensor_type;
      path = unknown_path;
      forecast_mean = [];
      ci_lower = [];
      ci_upper = [];
      forecast_steps = d.forecast_steps;
      drift_tstat = none;
      reason = reason;
    };
    drift = none;
    segment_length = seg_len;
    anchor_index = q.anchor_index;
    order = d.order;
  }

  unfoldable pub forecast :
      ArimaPredictor F
      → Request
      → ForecastPath
      → ℕ
      → List F
      → List F
      → List F
      → Option F
      → Option F
      → String
      → Prediction F
  forecast d q path seg_len mean lower upper drift tstat reason = record {
    arima = record {
      timestamp = q.now;
      device_id = q.device_id;
      sensor_type = q.sensor_type;
      path = path;
      forecast_mean = mean;
      ci_lower = lower;
      ci_upper = upper;
      forecast_steps = d.forecast_steps;
      drift_tstat = tstat;
      reason = reason;
    };
    drift = drift;
    segment_length = seg_len;
    anchor_index = q.anchor_index;
    order = d.order;
  }

  -- _extract_drift: each of the two numbers is left out unless it is finite.
  unfoldable pub drift_of : Fitting F → Option (F × F) → Option F
  drift_of np none = none
  drift_of np (some (drift, tstat)) = if np.isfinite drift then some drift else none

  unfoldable pub tstat_of : Fitting F → Option (F × F) → Option F
  tstat_of np none = none
  tstat_of np (some (drift, tstat)) = if np.isfinite tstat then some (f.abs tstat) else none

  abbrev pub all_finite : Fitting F → List F → Bool
  all_finite np xs = all np.isfinite xs

  -- _normal_forecast, of the end of the fit
  unfoldable pub normal_of : Fitting F → ArimaPredictor F → Request → ℕ → Fit F → Prediction F
  unfolding unknown forecast drift_of tstat_of
  normal_of np d q seg_len (fit_failed e) = unknown d q seg_len (format ("ARIMA 적합 실패: " ∷ e ∷ []))
  normal_of np d q seg_len (fitted mean lower upper params) =
      if not (all_finite np mean && (all_finite np lower && all_finite np upper))
      then unknown d q seg_len "예측에 NaN/Inf 발생"
      else forecast d q normal_path seg_len mean lower upper (drift_of np params)
          (tstat_of np params) (format ("정규 경로 — 구간 " ∷ decimal_text seg_len ∷ "시점 재적합" ∷ []))

  unfoldable pub normal_forecast : Fitting F → ArimaPredictor F → Request → List F → Prediction F
  unfolding normal_of
  normal_forecast np d q segment =
      normal_of np d q (length segment) (np.fit d.order d.trend segment d.forecast_steps)

  -- segment - (last + drift * (x - (seg_len - 1))), for the positions x from `i` on
  unfoldable pub residuals : F → F → ℕ → ℕ → List F → List F
  residuals last drift n i [] = []
  residuals last drift n i (x ∷ xs) =
      f.sub x (f.add last (f.mul drift (f.sub (lit i) (lit (n - 1)))))
      ∷ residuals last drift n (suc i) xs

  -- 1.96 * 1.4826 * the median deviation of the residuals
  unfoldable pub spread : Fitting F → List F → F
  spread np resid =
      let center = np.median resid in
      let mad = np.median (map (λ r. f.abs (f.sub r center)) resid) in
      f.mul (f.decimal 196 2) (f.mul (f.decimal 14826 4) mad)

  -- last + drift * steps
  abbrev mean_at : F → F → ℕ → F
  mean_at last drift k = f.add last (f.mul drift (lit k))

  -- The end of _degraded_forecast, of the three lists.
  unfoldable pub degraded_of :
      Fitting F
      → ArimaPredictor F
      → Request
      → ℕ
      → List F
      → List F
      → List F
      → F
      → String
      → Prediction F
  unfolding unknown forecast
  degraded_of np d q seg_len mean lower upper drift reason =
      if not (all_finite np mean)
      then unknown d q seg_len "degraded 예측에 NaN/Inf 발생"
      else forecast d q degraded_path seg_len mean lower upper (some drift) none reason

  -- _degraded_forecast
  unfoldable pub degraded_forecast :
      Fitting F → ArimaPredictor F → Request → List F → String → Prediction F
  unfolding unknown degraded_of diff last_value steps_from residuals spread
  degraded_forecast np d q segment reason =
      let seg_len = length segment in
      let drift = np.median (diff segment) in
      let last = last_value segment in
      let steps = steps_from 1 d.forecast_steps in
      let width = spread np (residuals last drift seg_len 0 segment) in
      let mean = map (mean_at last drift) steps in
      let lower = map (λ k. f.sub (mean_at last drift k) (f.mul width (np.sqrt (lit k)))) steps in
      let upper = map (λ k. f.add (mean_at last drift k) (f.mul width (np.sqrt (lit k)))) steps in
      if ltb (length (diff segment)) 5
      then unknown d q seg_len "robust drift 추정 실패 (구간 부족)"
      else degraded_of np d q seg_len mean lower upper drift reason

  -- Part 4 of `predict`: a segment that is too short for a fit.
  unfoldable pub short_forecast :
      Fitting F → ArimaPredictor F → Request → List F → Option F → Prediction F
  unfolding unknown degraded_forecast
  short_forecast np d q segment none = unknown d q (length segment) "단구간 — robust slope 추정 실패"
  short_forecast np d q segment (some slope) =
      if slope <! d.slope_gate
      then unknown d q (length segment) (
          format (
            "단구간 — 기울기 완만 (slope "
            ∷ f.fixed 3 slope
            ∷ " < gate "
            ∷ f.show d.slope_gate
            ∷ "), 데이터 축적 대기"
            ∷ []))
      else degraded_forecast np d q segment (
          format (
            "degraded 경로 (P3 slope-aware) — 단구간 "
            ∷ decimal_text (length segment)
            ∷ "시점, 가파른 상승(slope "
            ∷ f.fixed 3 slope
            ∷ ") robust 외삽"
            ∷ []))

  -- The parts 4 to 6 of `predict`, of the segment without gaps.
  unfoldable pub predict_segment :
      Fitting F → ArimaPredictor F → Request → Bool → List F → Prediction F
  unfolding unknown robust_slope short_forecast degraded_forecast normal_forecast
  predict_segment np d q contamination segment =
      let seg_len = length segment in
      let horizon = f.mul d.segment_horizon_ratio (lit d.forecast_steps) in
      if ltb seg_len d.min_segment
      then short_forecast np d q segment (robust_slope np segment)
      else (if lit seg_len <! horizon
          then unknown d q seg_len (
              format (
                "수평 대비 구간 부족 ("
                ∷ decimal_text seg_len
                ∷ " < "
                ∷ f.show d.segment_horizon_ratio
                ∷ "×"
                ∷ decimal_text d.forecast_steps
                ∷ ")"
                ∷ []))
          else (if contamination
              then degraded_forecast np d q segment
                  "degraded 경로 — contamination 감지, robust drift 보조 예측"
              else normal_forecast np d q segment))

  -- The segment with its gaps filled by np.interp.
  unfoldable pub filled : Fitting F → List F → List F
  unfolding valid_indices
  filled np segment =
      let x = indices 0 segment in
      if any is_nan segment
      then np.interp x (valid_indices x segment) (without_nan segment)
      else segment

  -- 1.0 - (nan_mask.sum() / seg_len)
  unfoldable pub share_of : List F → F
  share_of segment =
      f.sub (lit 1)
        (f.div (lit (length segment - length (without_nan segment))) (lit (length segment)))

  -- The parts 3 to 6 of `predict`, of the segment.
  unfoldable pub predict_checked :
      Fitting F → ArimaPredictor F → Request → Bool → List F → Prediction F
  unfolding unknown share_of filled predict_segment
  predict_checked np d q contamination segment =
      if any np.isinf segment
      then unknown d q (length segment) "구간에 Inf 포함"
      else (if share_of segment <! d.min_valid_ratio
          then unknown d q (length segment) (
              format (
                "유효 비율 부족 ("
                ∷ f.fixed 2 (share_of segment)
                ∷ " < "
                ∷ f.show d.min_valid_ratio
                ∷ ")"
                ∷ []))
          else predict_segment np d q contamination (filled np segment))

  -- predict; the argument `now` is the present time.
  unfoldable pub predict :
      Fitting F → ArimaPredictor F → ℕ → List F → CpAnchorResult F → Prediction F
  unfolding unknown segment_size predict_checked
  predict np d now history anchor =
      let total = length history in
      let seg_len = segment_size d.max_segment total anchor.anchor_index anchor.segment_length in
      let q = request_of now anchor in
      if ltb seg_len d.degraded_min_segment
      then unknown d q seg_len (
          format (
            "구간 부족 ("
            ∷ decimal_text seg_len
            ∷ " < degraded_min "
            ∷ decimal_text d.degraded_min_segment
            ∷ ")"
            ∷ []))
      else predict_checked np d q anchor.contamination (drop (total - seg_len) history)
