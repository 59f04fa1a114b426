-- ===== src/Engine/Forecast/Grades.antt =====
-- common/integration/forecast_policy.py: the confirmed grades of a call after earlier calls.
use mathlib.Core.Path.{ap₂, subst₂}
use icmp.Base.{
  ℕ, ◌≤◌, ◌<◌, String, ◌≡◌, refl, ap, ◌∙◌, Bool, true, false, ◌&&◌, not, Option, none, some, List,
  [], ◌∷◌, string_eq, pair_eq, ◌=?◌, arith, ◌↔◌, format, subst,
}
use icmp.Float.{Float}
use icmp.Engine.Types.{RiskLevel}
use icmp.Engine.Forecast.Data.{
  ForecastConfidence, confirmed_warning, confirmed_strong, unknown, ForecastPolicyResult,
  ForecastPath, normal_path, degraded_path, unknown_path, ArimaResult, Key, ForecastPolicy, Output,
}
use icmp.Engine.Forecast.Writes.{next, on_degraded}
use icmp.Engine.Forecast.Calls.{
  Call, graded_call, Axis, caution_axis, danger_axis, axis_key, axis_met, axis_limit, meets,
  on_normal_path, own_key, own-kept, quiet, on_path,
}
use icmp.Engine.Forecast.Streak.{trailing, policy_after, trailing-own, of_channel, after-Counts}
use icmp.Engine.Forecast.{
  streak, reset, warn_cond, strong_cond, grade_axis, grade_path, grade_known, grade_limits,
  grade_side, grade, graded, ungraded, caution_key, danger_key,
}

-- A confidence is confirmed as the two runs say: strongly from K strong successes on, else by the mean.
pub record Confirms (conf : ForecastConfidence) (k strong warn : ℕ) : Type 0 where
  pub strongly : (conf ≡ confirmed_strong) ↔ (k ≤ strong)
  pub by_mean : (conf ≡ confirmed_warning) ↔ ((strong < k) × (k ≤ warn))

abbrev pub conf_at : Axis → ForecastPolicyResult → ForecastConfidence
conf_at caution_axis r = r.caution_confidence
conf_at danger_axis r = r.danger_confidence

unknown-Confirms : (k : ℕ) → 0 < k → Confirms unknown k 0 0
unknown-Confirms k h = ground arith

Confirms-values :
    {conf : ForecastConfidence} {k l a b c d : ℕ}
    → k ≡ l
    → a ≡ c
    → b ≡ d
    → Confirms conf k a b
    → Confirms conf l c d
Confirms-values {conf} {k} {l} {a} {b} {c} {d} e g h v =
    subst (λ n. Confirms conf n c d) e (subst₂ (λ x y. Confirms conf k x y) g h v)

module _ {F : Type 0} ⦃f : Float F⦄ where
  path-Confirms :
      (p : ForecastPath) (s : ForecastPolicy F) (key : Key) (ar : ArimaResult F) (t : F)
      (eta : Option ℕ)
      → 0 < s.k
      → Confirms
          (grade_path p s key ar t eta).conf
          s.k
          (next (not (on_degraded p) && strong_cond ar t) (streak key s.strong_streak))
          (next
            (not (on_degraded p) && warn_cond s.margin_ratio s.tau ar t)
            (streak key s.warn_streak))
  unfolding grade_path
  path-Confirms degraded_path s key ar t eta h = ground arith
  path-Confirms _ s key ar t eta h = ground arith

  own_key_eq :
      (a : Axis) (ar : ArimaResult F) → own_key a ar ≡ axis_key a ar.device_id ar.sensor_type
  own_key_eq caution_axis ar = refl
  own_key_eq danger_axis ar = refl

  -- What a call that may have met its conditions says of the axis.
  abbrev Says : Axis → ForecastPolicy F → ArimaResult F → Output F → Bool → Bool → Type 0
  Says a s ar out strong warn =
      Confirms (conf_at a out.result) s.k (next strong (streak (own_key a ar) s.strong_streak))
        (next warn (streak (own_key a ar) s.warn_streak))

  module _ (s : ForecastPolicy F) (ar : ArimaResult F) (sure : 0 < s.k) where
    ungraded-Says :
        (a : Axis) (reason : String) (present : RiskLevel)
        → Says a s ar (ungraded s ar reason present) false false
    unfolding ungraded
    ungraded-Says caution_axis reason present = unknown-Confirms s.k sure
    ungraded-Says danger_axis reason present = unknown-Confirms s.k sure

    graded-Says :
        (a : Axis) (x y : F) (present : RiskLevel)
        → Says a s ar
            (graded s ar x y present)
            (not (on_degraded ar.path) && meets (strong_cond ar) (axis_limit a (some x) (some y)))
            (not (on_degraded ar.path)
              && meets (warn_cond s.margin_ratio s.tau ar) (axis_limit a (some x) (some y)))
    unfolding graded grade_axis
    graded-Says caution_axis x y present = path-Confirms ar.path s (caution_key ar) ar x _ sure
    graded-Says danger_axis x y present =
        let (strong, warn, margin, tau, k) = own-kept ar.device_id ar.sensor_type s ar x in
        Confirms-values k (ap (next _) strong) (cc)
          (path-Confirms ar.path _ (danger_key ar) ar y _ (rw k sure))

    known-Says :
        (a : Axis) (p : ForecastPath) (x y : F) (present : RiskLevel)
        → ar.path ≡ p
        → Says a s ar
            (grade_known p s ar x y present)
            (meets (strong_cond ar) (axis_limit a (some x) (some y)) && on_normal_path p)
            (meets (warn_cond s.margin_ratio s.tau ar) (axis_limit a (some x) (some y))
              && on_normal_path p)
    unfolding grade_known
    known-Says a unknown_path x y present e =
        Confirms-values refl (quiet _ _) (quiet _ _)
          (ungraded-Says a (format ("ARIMA 예측 불가: " ∷ ar.reason ∷ [])) present)
    known-Says a normal_path x y present e =
        Confirms-values refl (on_path e _ _ refl) (on_path e _ _ refl) (graded-Says a x y present)
    known-Says a degraded_path x y present e =
        Confirms-values refl (on_path e _ _ refl) (on_path e _ _ refl) (graded-Says a x y present)

    limits-Says :
        (a : Axis) (x y : Option F) (present : RiskLevel)
        → Says a s ar
            (grade_limits s ar x y present)
            (meets (strong_cond ar) (axis_limit a x y) && on_normal_path ar.path)
            (meets (warn_cond s.margin_ratio s.tau ar) (axis_limit a x y) && on_normal_path ar.path)
    unfolding grade_limits
    limits-Says a (some x) (some y) present = known-Says a ar.path x y present refl
    limits-Says caution_axis (some x) none present =
        ungraded-Says caution_axis "임계(주의·위험) 미정의" present
    limits-Says danger_axis (some x) none present =
        ungraded-Says danger_axis "임계(주의·위험) 미정의" present
    limits-Says caution_axis none y present = ungraded-Says caution_axis "임계(주의·위험) 미정의" present
    limits-Says danger_axis none y present = ungraded-Says danger_axis "임계(주의·위험) 미정의" present

  side-Says :
      (high : Bool) (a : Axis) (s : ForecastPolicy F) (c : Call F)
      → 0 < s.k
      → Says a s c.forecast
          (grade_side high s c.forecast c.caution c.danger c.direction c.present)
          (high
            && (meets (strong_cond c.forecast) (axis_limit a c.caution c.danger)
                && on_normal_path c.forecast.path))
          (high
            && (meets (warn_cond s.margin_ratio s.tau c.forecast) (axis_limit a c.caution c.danger)
                && on_normal_path c.forecast.path))
  unfolding grade_side
  side-Says true a s c sure = limits-Says s c.forecast sure a c.caution c.danger c.present
  side-Says false a s c sure =
      ungraded-Says s c.forecast sure a
        (format ("direction '" ∷ c.direction ∷ "' 등급화 미구현 (후속 일반화 대상)" ∷ [])) c.present

  call-Says :
      (a : Axis) (s : ForecastPolicy F) (c : Call F)
      → 0 < s.k
      → Says a s c.forecast
          (graded_call s c)
          (axis_met a strong_cond c)
          (axis_met a (warn_cond s.margin_ratio s.tau) c)
  unfolding grade
  call-Says a s c sure = side-Says (c.direction =? "high") a s c sure

  -- After any earlier calls from a reset policy with K > 0, a call's grade on an axis is CONFIRMED_STRONG
  -- exactly when the newest K calls of its channel, this one included, were graded on the regular path
  -- with both limits, on the high side, and with a lower bound that reaches the limit; it is
  -- CONFIRMED_WARNING exactly when that fails and the newest K met the condition on the mean and the
  -- drift. Calls of other channels do not count.
  pub grade-Confirms :
      (a : Axis) (s : ForecastPolicy F) (c : Call F) (calls : List (Call F))
      → 0 < s.k
      → Confirms
          (conf_at a (graded_call (policy_after (reset s) calls) c).result)
          s.k
          (trailing
            (axis_met a strong_cond)
            (of_channel c.forecast.device_id c.forecast.sensor_type (c ∷ calls)))
          (trailing
            (axis_met a (warn_cond s.margin_ratio s.tau))
            (of_channel c.forecast.device_id c.forecast.sensor_type (c ∷ calls)))
  grade-Confirms a s c calls sure =
      let v = policy_after (reset s) calls in
      let n = after-Counts a c.forecast.device_id c.forecast.sensor_type s calls in
      let own = own_key_eq a c.forecast in
      let strong = ap (λ k. streak k v.strong_streak) own ∙ n.strong in
      let warn = ap (λ k. streak k v.warn_streak) own ∙ n.warn in
      let met : axis_met a (warn_cond v.margin_ratio v.tau) c
          ≡ axis_met a (warn_cond s.margin_ratio s.tau) c =
        ap₂ (λ m t. axis_met a (warn_cond m t) c) n.same_margin n.same_tau in
      Confirms-values n.same_k (ap (next _) strong ∙ trailing-own _ c calls)
        (ap₂ next met warn ∙ trailing-own _ c calls) (call-Says a v c (rw n.same_k sure))
