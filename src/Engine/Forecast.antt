-- ===== src/Engine/Forecast.antt =====
-- common/integration/forecast_policy.py: an ARIMA forecast graded on two axes, with the K-streaks.
pub mod Data
pub mod Writes
pub mod Calls
pub mod Streak
pub mod Grades
pub mod Evidence
use icmp.Base.{
  ℕ, zero, suc, ◌+◌, String, Bool, true, false, ◌&&◌, ◌||◌, Option, none, some, List, [], ◌∷◌, any,
  leb, if◌then◌else◌, Dict, lookup, insert, string_eq, pair_eq, ◌=?◌, format,
}
use icmp.Float.{Float, lit, ◌>=◌, ◌<=◌, ◌>!◌, ◌<!◌}
use icmp.Engine.Types.{RiskLevel, level_text}
use icmp.Engine.Forecast.Data.{
  ForecastConfidence, normal, tentative, confirmed_warning, confirmed_strong, unknown, conf_text,
  conf_rank, ForecastPath, normal_path, degraded_path, unknown_path, path_text, ArimaResult,
  ForecastPolicyResult, Key, ForecastPolicy, PolicyResult, ok, err, negative_margin, negative_tau,
  no_confirm, bad_beta, Graded, Output,
}

-- streak.get(key, 0)
abbrev pub count_or_zero : Option ℕ → ℕ
count_or_zero none = 0
count_or_zero (some n) = n

unfoldable pub streak : Key → Dict Key ℕ → ℕ
streak key d = count_or_zero (lookup key d)

-- NORMAL or UNKNOWN, when neither axis raises a warning
abbrev both_quiet : ForecastConfidence → ForecastConfidence → ForecastConfidence
both_quiet unknown e = unknown
both_quiet b unknown = unknown
both_quiet b e = normal

-- _headline
unfoldable pub headline :
    ForecastConfidence → ForecastConfidence → Option String × ForecastConfidence
headline c d =
    if leb 1 (conf_rank d)
    then (some "danger", d)
    else if leb 1 (conf_rank c)
    then (some "caution", c)
    else (none, both_quiet c d)

abbrev pub is_risk : RiskLevel → Bool
is_risk RiskLevel.caution = true
is_risk RiskLevel.danger = true
is_risk _ = false

module _ {F : Type 0} where
  abbrev pub caution_key : ArimaResult F → Key
  caution_key ar = (ar.device_id, (ar.sensor_type, "caution"))

  abbrev pub danger_key : ArimaResult F → Key
  danger_key ar = (ar.device_id, (ar.sensor_type, "danger"))

  -- reset
  unfoldable pub reset : ForecastPolicy F → ForecastPolicy F
  reset s = record s { warn_streak = []; strong_streak = [] }

  -- _reset
  unfoldable pub reset_key : Key → ForecastPolicy F → ForecastPolicy F
  reset_key key s = record s {
    warn_streak = insert key 0 s.warn_streak;
    strong_streak = insert key 0 s.strong_streak;
  }

module _ {F : Type 0} ⦃f : Float F⦄ where
  -- __init__
  unfoldable pub init : F → F → ℕ → F → PolicyResult F
  init margin_ratio drift_tau k_confirm beta =
      if margin_ratio <! lit 0
      then err negative_margin
      else if drift_tau <! lit 0
      then err negative_tau
      else if leb k_confirm 0
      then err no_confirm
      else if beta <= lit 0
      then err bad_beta
      else ok (record {
        margin_ratio = margin_ratio;
        tau = drift_tau;
        k = k_confirm;
        beta = beta;
        warn_streak = [];
        strong_streak = [];
      })

  -- x + m >= threshold
  abbrev pub reaches : F → F → F → Bool
  reaches m threshold x = f.add x m >= threshold

  -- next((h + 1 for h, x in enumerate(mean) if (x + m) >= threshold), None)
  unfoldable pub first_reach : F → F → ℕ → List F → Option ℕ
  first_reach m threshold h [] = none
  first_reach m threshold h (x ∷ xs) =
      let later = first_reach m threshold (suc h) xs in
      if reaches m threshold x then some (suc h) else later

  -- The widths u - l of zip(ci_lower, ci_upper).
  unfoldable pub widths : List F → List F → List F
  widths (l ∷ lo) (u ∷ hi) = f.sub u l ∷ widths lo hi
  widths _ _ = []

  max_from : F → List F → F
  max_from best [] = best
  max_from best (x ∷ xs) = max_from (if x >! best then x else best) xs

  -- max(widths) if lo else 0.0; the forecaster gives both bounds the same length.
  unfoldable pub max_width : List F → List F → F
  unfolding max_from widths
  max_width lo hi = elim (widths lo hi) [ [] ↦ f.decimal 0 1 | x ∷ xs ↦ max_from x xs ]

  -- drift_tstat is not None and drift_tstat >= tau
  abbrev pub is_significant : F → Option F → Bool
  is_significant tau none = false
  is_significant tau (some t) = t >= tau

  unfoldable pub warn_cond : F → F → ArimaResult F → F → Bool
  warn_cond margin_ratio tau ar threshold =
      any (reaches (f.mul margin_ratio threshold) threshold) ar.forecast_mean
      && is_significant tau ar.drift_tstat

  unfoldable pub strong_cond : ArimaResult F → F → Bool
  strong_cond ar threshold = any (λ l. l >= threshold) ar.ci_lower

  abbrev pub tentative_cond : ForecastPolicy F → ArimaResult F → F → Bool
  tentative_cond s ar threshold =
      any (reaches (f.mul s.margin_ratio threshold) threshold) ar.ci_upper

  grade_degraded : ForecastPolicy F → Key → ArimaResult F → F → Option ℕ → Graded F
  unfolding reset_key
  grade_degraded s key ar threshold eta =
      let wide = max_width ar.ci_lower ar.ci_upper >! f.mul s.beta threshold in
      record {
        policy = reset_key key s;
        conf =
            if wide then unknown else if tentative_cond s ar threshold then tentative else normal;
        eta = if wide then none else eta;
      }

  grade_normal : ForecastPolicy F → Key → ArimaResult F → F → Option ℕ → Graded F
  grade_normal s key ar threshold eta =
      let warn =
        if warn_cond s.margin_ratio s.tau ar threshold then streak key s.warn_streak + 1 else 0 in
      let strong = if strong_cond ar threshold then streak key s.strong_streak + 1 else 0 in
      record {
        policy = record s {
          warn_streak = insert key warn s.warn_streak;
          strong_streak = insert key strong s.strong_streak;
        };
        conf =
            if leb s.k strong
            then confirmed_strong
            else if leb s.k warn
            then confirmed_warning
            else if tentative_cond s ar threshold
            then tentative
            else normal;
        eta = eta;
      }

  grade_path : ForecastPath → ForecastPolicy F → Key → ArimaResult F → F → Option ℕ → Graded F
  unfolding grade_degraded grade_normal streak warn_cond strong_cond
  grade_path degraded_path s key ar threshold eta = grade_degraded s key ar threshold eta
  grade_path _ s key ar threshold eta = grade_normal s key ar threshold eta

  -- _grade_axis
  unfoldable pub grade_axis : ForecastPolicy F → Key → ArimaResult F → F → Graded F
  unfolding grade_path
  grade_axis s key ar threshold =
      grade_path ar.path s key ar threshold
        (first_reach (f.mul s.margin_ratio threshold) threshold 0 ar.forecast_mean)

  -- _build
  unfoldable pub build :
      ArimaResult F
      → ForecastConfidence
      → ForecastConfidence
      → Option ℕ
      → Option ℕ
      → String
      → RiskLevel
      → ForecastPolicyResult
  unfolding headline
  build ar c_conf d_conf c_eta d_eta reason present =
      let (hs, hc) = headline c_conf d_conf in
      let corroborated = is_risk present && leb 1 (conf_rank hc) in
      record {
        timestamp = ar.timestamp;
        device_id = ar.device_id;
        sensor_type = ar.sensor_type;
        caution_confidence = c_conf;
        danger_confidence = d_conf;
        headline_severity = hs;
        headline_confidence = hc;
        caution_eta_step = c_eta;
        danger_eta_step = d_eta;
        path = ar.path;
        forecast_steps = ar.forecast_steps;
        present_level = present;
        corroborated = corroborated;
        reason =
            if corroborated
            then format (reason ∷ " · 현재 " ∷ level_text present ∷ " — 추세 보강" ∷ [])
            else reason;
      }

  ungraded : ForecastPolicy F → ArimaResult F → String → RiskLevel → Output F
  unfolding reset_key build
  ungraded s ar reason present = record {
    policy = reset_key (danger_key ar) (reset_key (caution_key ar) s);
    result = build ar unknown unknown none none reason present;
  }

  graded : ForecastPolicy F → ArimaResult F → F → F → RiskLevel → Output F
  unfolding grade_axis build
  graded s ar caution danger present =
      let c = grade_axis s (caution_key ar) ar caution in
      let d = grade_axis c.policy (danger_key ar) ar danger in
      let why =
        format
          (path_text ar.path ∷ " 경로 — 주의:" ∷ conf_text c.conf ∷ " / 위험:" ∷ conf_text d.conf ∷ []) in
      record { policy = d.policy; result = build ar c.conf d.conf c.eta d.eta why present }

  grade_known : ForecastPath → ForecastPolicy F → ArimaResult F → F → F → RiskLevel → Output F
  unfolding ungraded graded
  grade_known unknown_path s ar caution danger present =
      ungraded s ar (format ("ARIMA 예측 불가: " ∷ ar.reason ∷ [])) present
  grade_known _ s ar caution danger present = graded s ar caution danger present

  grade_limits : ForecastPolicy F → ArimaResult F → Option F → Option F → RiskLevel → Output F
  unfolding grade_known ungraded
  grade_limits s ar (some caution) (some danger) present =
      grade_known ar.path s ar caution danger present
  grade_limits s ar _ _ present = ungraded s ar "임계(주의·위험) 미정의" present

  -- The branch on `direction != "high"`.
  grade_side :
      Bool → ForecastPolicy F → ArimaResult F → Option F → Option F → String → RiskLevel → Output F
  unfolding grade_limits ungraded
  grade_side true s ar caution danger direction present = grade_limits s ar caution danger present
  grade_side false s ar caution danger direction present =
      ungraded s ar (format ("direction '" ∷ direction ∷ "' 등급화 미구현 (후속 일반화 대상)" ∷ [])) present

  -- grade
  unfoldable pub grade :
      ForecastPolicy F → ArimaResult F → Option F → Option F → String → RiskLevel → Output F
  unfolding grade_side
  grade s ar caution danger direction present =
      grade_side (direction =? "high") s ar caution danger direction present
