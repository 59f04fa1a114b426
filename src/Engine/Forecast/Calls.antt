-- ===== src/Engine/Forecast/Calls.antt =====
-- common/integration/forecast_policy.py: one call of `grade`, and what it writes to the streaks of each axis.
use icmp.Base.{
  ℕ, String, ◌≡◌, refl, ap, Bool, true, false, ◌&&◌, not, Option, none, some, [], ◌∷◌,
  if◌then◌else◌, string_eq, pair_eq, ◌=?◌, arith, format,
}
use icmp.Float.{Float}
use icmp.Engine.Types.{RiskLevel}
use icmp.Engine.Forecast.Data.{
  ForecastPath, normal_path, degraded_path, unknown_path, ArimaResult, Key, ForecastPolicy, Output,
}
use icmp.Engine.Forecast.Writes.{
  Writes, Writes-values, next, on_degraded, reset_key-Writes, axis-Writes, first-Writes,
  second-Writes,
}
use icmp.Engine.Forecast.{
  ungraded, graded, grade_known, grade_limits, grade_side, streak, reset_key, warn_cond,
  strong_cond, grade_axis, grade, caution_key, danger_key,
}

-- One call of `grade`: its arguments.
pub record Call (F : Type 0) : Type 0 where
  pub forecast : ArimaResult F
  pub caution : Option F
  pub danger : Option F
  pub direction : String
  pub present : RiskLevel

abbrev pub on_normal_path : ForecastPath → Bool
on_normal_path normal_path = true
on_normal_path p = false

abbrev pub on_unknown : ForecastPath → Bool
on_unknown unknown_path = true
on_unknown p = false

pub data Axis : Type 0 where
  caution_axis danger_axis : Axis

abbrev pub axis_key : Axis → String → String → Key
axis_key caution_axis device sensor = (device, (sensor, "caution"))
axis_key danger_axis device sensor = (device, (sensor, "danger"))

-- The limit of the axis, where both limits are given.
abbrev pub axis_limit : {A : Type 0} → Axis → Option A → Option A → Option A
axis_limit caution_axis (some x) (some y) = some x
axis_limit danger_axis (some x) (some y) = some y
axis_limit a _ _ = none

abbrev pub meets : {A : Type 0} → (A → Bool) → Option A → Bool
meets test none = false
meets test (some t) = test t

abbrev pub is_channel : {F : Type 0} → String → String → ArimaResult F → Bool
is_channel device sensor ar = (ar.device_id =? device) && (ar.sensor_type =? sensor)

module _ {F : Type 0} (device sensor : String) (ar : ArimaResult F) where
  pub key_on_axis :
      ((caution_key ar =? axis_key caution_axis device sensor) ≡ is_channel device sensor ar)
      × ((danger_key ar =? axis_key danger_axis device sensor) ≡ is_channel device sensor ar)
  key_on_axis = ground arith

  pub key_off_axis :
      ((caution_key ar =? axis_key danger_axis device sensor) ≡ false)
      × ((danger_key ar =? axis_key caution_axis device sensor) ≡ false)
  key_off_axis = ground arith

pub quiet : (b : Bool) (n : ℕ) → next false n ≡ next (b && false) n
quiet true n = refl
quiet false n = refl

pub on_path :
    {p q : ForecastPath}
    → p ≡ q
    → (b : Bool) (n : ℕ) → on_unknown q ≡ false
    → next (not (on_degraded p) && b) n ≡ next (b && on_normal_path q) n
on_path e b n known = ground arith

skip : (b : Bool) (n m : ℕ) {x : ℕ} → b ≡ false → x ≡ (if b then n else m) → x ≡ m
skip b n m other e = ground arith

module _ {F : Type 0} ⦃f : Float F⦄ where
  abbrev pub graded_call : ForecastPolicy F → Call F → Output F
  graded_call s c = grade s c.forecast c.caution c.danger c.direction c.present

  -- The call grades the axis on the regular path and meets its condition.
  abbrev pub axis_met : Axis → (ArimaResult F → F → Bool) → Call F → Bool
  axis_met a cond c =
      (c.direction =? "high")
      && (meets (cond c.forecast) (axis_limit a c.caution c.danger)
          && on_normal_path c.forecast.path)

  abbrev pub own_key : Axis → ArimaResult F → Key
  own_key caution_axis ar = caution_key ar
  own_key danger_axis ar = danger_key ar

  -- The streaks of an axis after a call that may have met its condition.
  abbrev pub AfterCall :
      Axis
      → String
      → String
      → ForecastPolicy F
      → ArimaResult F
      → ForecastPolicy F
      → Bool
      → Bool
      → Type 0
  AfterCall a device sensor s ar v strong warn =
      Writes s (own_key a ar) (axis_key a device sensor) v
        (next strong (streak (own_key a ar) s.strong_streak))
        (next warn (streak (own_key a ar) s.warn_streak))

  pub own_key_on_axis :
      (a : Axis) (device sensor : String) (ar : ArimaResult F)
      → (own_key a ar =? axis_key a device sensor) ≡ is_channel device sensor ar
  own_key_on_axis caution_axis device sensor ar = (key_on_axis device sensor ar).0
  own_key_on_axis danger_axis device sensor ar = (key_on_axis device sensor ar).1

  module _ (device sensor : String) (s : ForecastPolicy F) (ar : ArimaResult F) where
    ungraded-AfterCall :
        (a : Axis) (reason : String) (present : RiskLevel)
        → AfterCall a device sensor s ar (ungraded s ar reason present).policy false false
    unfolding ungraded
    ungraded-AfterCall caution_axis reason present =
        first-Writes s (reset_key (caution_key ar) s) _ (caution_key ar) (danger_key ar)
          (axis_key caution_axis device sensor) 0 0 0 0 (key_off_axis device sensor ar).1
          (reset_key-Writes s (caution_key ar) _) (reset_key-Writes _ (danger_key ar) _)
    ungraded-AfterCall danger_axis reason present =
        second-Writes s (reset_key (caution_key ar) s) _ (caution_key ar) (danger_key ar)
          (axis_key danger_axis device sensor) 0 0 0 0 (key_off_axis device sensor ar).0
          (reset_key-Writes s (caution_key ar) _) (reset_key-Writes _ (danger_key ar) _)

    -- The axis that is graded second finds its own streaks and the parameters as they were.
    pub own-kept :
        (t : F)
        → let u = (grade_axis s (caution_key ar) ar t).policy in
          (streak (danger_key ar) u.strong_streak ≡ streak (danger_key ar) s.strong_streak)
          × (streak (danger_key ar) u.warn_streak ≡ streak (danger_key ar) s.warn_streak)
          × (u.margin_ratio ≡ s.margin_ratio)
          × (u.tau ≡ s.tau)
          × (u.k ≡ s.k)
    own-kept t =
        let w = axis-Writes s (caution_key ar) (danger_key ar) ar t in
        let other = (key_off_axis ar.device_id ar.sensor_type ar).0 in
        (
          skip _ _ _ other w.strong_after,
          skip _ _ _ other w.warn_after,
          w.same_margin,
          w.same_tau,
          w.same_k,
        )

    graded-AfterCall :
        (a : Axis) (x y : F) (present : RiskLevel)
        → AfterCall a device sensor s ar
            (graded s ar x y present).policy
            (not (on_degraded ar.path) && meets (strong_cond ar) (axis_limit a (some x) (some y)))
            (not (on_degraded ar.path)
              && meets (warn_cond s.margin_ratio s.tau ar) (axis_limit a (some x) (some y)))
    unfolding graded
    graded-AfterCall caution_axis x y present =
        first-Writes s (grade_axis s (caution_key ar) ar x).policy _ (caution_key ar)
          (danger_key ar) (axis_key caution_axis device sensor) _ _ _ _
          (key_off_axis device sensor ar).1 (axis-Writes s (caution_key ar) _ ar x)
          (axis-Writes _ (danger_key ar) _ ar y)
    graded-AfterCall danger_axis x y present =
        let (strong, warn, margin, tau, k) = own-kept x in
        second-Writes s (grade_axis s (caution_key ar) ar x).policy _ (caution_key ar)
          (danger_key ar) (axis_key danger_axis device sensor) _ _ _ _
          (key_off_axis device sensor ar).0 (axis-Writes s (caution_key ar) _ ar x)
          (Writes-values (ap (next _) strong) (cc) (axis-Writes _ (danger_key ar) _ ar y))

    known-AfterCall :
        (a : Axis) (p : ForecastPath) (x y : F) (present : RiskLevel)
        → ar.path ≡ p
        → AfterCall a device sensor s ar
            (grade_known p s ar x y present).policy
            (meets (strong_cond ar) (axis_limit a (some x) (some y)) && on_normal_path p)
            (meets (warn_cond s.margin_ratio s.tau ar) (axis_limit a (some x) (some y))
              && on_normal_path p)
    unfolding grade_known
    known-AfterCall a unknown_path x y present e =
        Writes-values (quiet _ _) (quiet _ _)
          (ungraded-AfterCall a (format ("ARIMA 예측 불가: " ∷ ar.reason ∷ [])) present)
    known-AfterCall a normal_path x y present e =
        Writes-values (on_path e _ _ refl) (on_path e _ _ refl) (graded-AfterCall a x y present)
    known-AfterCall a degraded_path x y present e =
        Writes-values (on_path e _ _ refl) (on_path e _ _ refl) (graded-AfterCall a x y present)

    limits-AfterCall :
        (a : Axis) (x y : Option F) (present : RiskLevel)
        → AfterCall a device sensor s ar
            (grade_limits s ar x y present).policy
            (meets (strong_cond ar) (axis_limit a x y) && on_normal_path ar.path)
            (meets (warn_cond s.margin_ratio s.tau ar) (axis_limit a x y) && on_normal_path ar.path)
    unfolding grade_limits
    limits-AfterCall a (some x) (some y) present = known-AfterCall a ar.path x y present refl
    limits-AfterCall caution_axis (some x) none present =
        ungraded-AfterCall caution_axis "임계(주의·위험) 미정의" present
    limits-AfterCall danger_axis (some x) none present =
        ungraded-AfterCall danger_axis "임계(주의·위험) 미정의" present
    limits-AfterCall caution_axis none y present =
        ungraded-AfterCall caution_axis "임계(주의·위험) 미정의" present
    limits-AfterCall danger_axis none y present =
        ungraded-AfterCall danger_axis "임계(주의·위험) 미정의" present

  side-AfterCall :
      (high : Bool) (a : Axis) (device sensor : String) (s : ForecastPolicy F) (c : Call F)
      → AfterCall a device sensor s c.forecast
          (grade_side high s c.forecast c.caution c.danger c.direction c.present).policy
          (high
            && (meets (strong_cond c.forecast) (axis_limit a c.caution c.danger)
                && on_normal_path c.forecast.path))
          (high
            && (meets (warn_cond s.margin_ratio s.tau c.forecast) (axis_limit a c.caution c.danger)
                && on_normal_path c.forecast.path))
  unfolding grade_side
  side-AfterCall true a device sensor s c =
      limits-AfterCall device sensor s c.forecast a c.caution c.danger c.present
  side-AfterCall false a device sensor s c =
      ungraded-AfterCall device sensor s c.forecast a
        (format ("direction '" ∷ c.direction ∷ "' 등급화 미구현 (후속 일반화 대상)" ∷ [])) c.present

  pub call-AfterCall :
      (a : Axis) (device sensor : String) (s : ForecastPolicy F) (c : Call F)
      → AfterCall a device sensor s c.forecast
          (graded_call s c).policy
          (axis_met a strong_cond c)
          (axis_met a (warn_cond s.margin_ratio s.tau) c)
  unfolding grade
  call-AfterCall a device sensor s c = side-AfterCall (c.direction =? "high") a device sensor s c
