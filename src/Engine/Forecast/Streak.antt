-- ===== src/Engine/Forecast/Streak.antt =====
-- common/integration/forecast_policy.py: the K-streaks against the calls so far.
use icmp.Base.{
  ℕ, suc, String, ◌≡◌, refl, ap, ◌∙◌, Bool, true, List, [], ◌∷◌, select, if◌then◌else◌, string_eq,
  pair_eq, ◌=?◌, arith, Dict, beq_refl,
}
use mathlib.Core.Path.{ap₂}
use icmp.Float.{Float}
use icmp.Engine.Forecast.Data.{ArimaResult, Key, ForecastPolicy}
use icmp.Engine.Forecast.Writes.{next, streak_nil}
use icmp.Engine.Forecast.Calls.{
  Call, graded_call, Axis, axis_key, axis_met, is_channel, own_key, own_key_on_axis, call-AfterCall,
}
use icmp.Engine.Forecast.{streak, reset, warn_cond, strong_cond}

-- The calls so far, the newest first, and the length of its newest run that passes a test.
pub trailing : {A : Type 0} → (A → Bool) → List A → ℕ
trailing p [] = 0
trailing p (c ∷ earlier) = if p c then suc (trailing p earlier) else 0

module _ {F : Type 0} ⦃f : Float F⦄ where
  -- The policy after the calls, from its state `s`.
  unfoldable pub policy_after : ForecastPolicy F → List (Call F) → ForecastPolicy F
  policy_after s [] = s
  policy_after s (c ∷ earlier) = (graded_call (policy_after s earlier) c).policy

  -- The calls for one channel.
  abbrev pub of_channel : String → String → List (Call F) → List (Call F)
  of_channel device sensor calls = select (λ c. is_channel device sensor c.forecast) calls

  pub record Counts (a : Axis) (device sensor : String) (s : ForecastPolicy F)
      (calls : List (Call F)) (v : ForecastPolicy F) : Type 0 where
    pub strong :
        streak (axis_key a device sensor) v.strong_streak
        ≡ trailing (axis_met a strong_cond) (of_channel device sensor calls)
    pub warn :
        streak (axis_key a device sensor) v.warn_streak
        ≡ trailing (axis_met a (warn_cond s.margin_ratio s.tau)) (of_channel device sensor calls)
    pub same_margin : v.margin_ratio ≡ s.margin_ratio
    pub same_tau : v.tau ≡ s.tau
    pub same_k : v.k ≡ s.k

  own_streak :
      (a : Axis) (device sensor : String) (ar : ArimaResult F) (d : Dict Key ℕ)
      → (own_key a ar =? axis_key a device sensor) ≡ true
      → streak (own_key a ar) d ≡ streak (axis_key a device sensor) d
  own_streak a device sensor ar d e =
      ap (λ k. streak k d) ((pair_eq.beq_iff (own_key a ar) (axis_key a device sensor)).0 e)

  -- One more call of a channel against its run.
  count_step :
      (p : Call F → Bool) (c : Call F) (rest : List (Call F)) (ch : Bool) {same met : Bool}
      {n m x : ℕ}
      → same ≡ ch
      → met ≡ p c
      → (same ≡ true → n ≡ m)
      → x ≡ (if same then next met n else m)
      → m ≡ trailing p rest
      → x ≡ trailing p (if ch then c ∷ rest else rest)
  unfolding trailing
  count_step p c rest ch e same_met own now before = ground arith

  pub after-Counts :
      (a : Axis) (device sensor : String) (s : ForecastPolicy F) (calls : List (Call F))
      → Counts a device sensor s calls (policy_after (reset s) calls)
  unfolding policy_after trailing reset
  after-Counts a device sensor s [] = record {
    strong = streak_nil (axis_key a device sensor);
    warn = streak_nil (axis_key a device sensor);
    same_margin = refl;
    same_tau = refl;
    same_k = refl;
  }
  after-Counts a device sensor s (c ∷ calls) =
      let v = policy_after (reset s) calls in
      let before = after-Counts a device sensor s calls in
      let w = call-AfterCall a device sensor v c in
      let on = own_key_on_axis a device sensor c.forecast in
      let own = λ (d : Dict Key ℕ). own_streak a device sensor c.forecast d in
      record {
        strong =
            count_step _ c (of_channel device sensor calls) _ on refl (own v.strong_streak)
              w.strong_after before.strong;
        warn =
            count_step _ c (of_channel device sensor calls) _ on
              (ap₂ (λ m t. axis_met a (warn_cond m t) c) before.same_margin before.same_tau)
              (own v.warn_streak) w.warn_after before.warn;
        same_margin = w.same_margin ∙ before.same_margin;
        same_tau = w.same_tau ∙ before.same_tau;
        same_k = w.same_k ∙ before.same_k;
      }

  pub trailing-own :
      (p : Call F → Bool) (c : Call F) (calls : List (Call F))
      → next (p c) (trailing p (of_channel c.forecast.device_id c.forecast.sensor_type calls))
        ≡ trailing p (of_channel c.forecast.device_id c.forecast.sensor_type (c ∷ calls))
  unfolding trailing
  trailing-own p c calls =
      simp (beq_refl c.forecast.device_id, beq_refl c.forecast.sensor_type) (ground arith)
