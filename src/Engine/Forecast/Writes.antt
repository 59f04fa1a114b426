-- ===== src/Engine/Forecast/Writes.antt =====
-- common/integration/forecast_policy.py: what a grading writes to the K-streaks, seen from any key.
use icmp.Base.{
  ℕ, ◌+◌, ◌≡◌, refl, ap, ◌∙◌, Bool, true, false, ◌&&◌, not, Option, some, [], if◌then◌else◌, lookup,
  insert, lookup-insert, string_eq, pair_eq, ◌=?◌, arith, Dict,
}
use mathlib.Core.Path.{subst₂}
use icmp.Float.{Float}
use icmp.Engine.Forecast.Data.{
  ForecastPath, degraded_path, unknown_path, ArimaResult, Key, ForecastPolicy,
}
use icmp.Engine.Forecast.{
  streak, count_or_zero, reset_key, warn_cond, strong_cond, grade_axis, grade_path, grade_normal,
}

abbrev pub on_degraded : ForecastPath → Bool
on_degraded degraded_path = true
on_degraded p = false

abbrev pub on_unknown : ForecastPath → Bool
on_unknown unknown_path = true
on_unknown p = false

streak-insert :
    (key j : Key) (n : ℕ) (d : Dict Key ℕ)
    → streak j (insert key n d) ≡ (if key =? j then n else streak j d)
unfolding streak
streak-insert key j n d = ap count_or_zero (lookup-insert key j n d) ∙ pick (key =? j)
  where
    pick :
        (b : Bool)
        → count_or_zero (if b then some n else lookup j d) ≡ (if b then n else streak j d)
    pick true = refl
    pick false = refl

pub streak_nil : (key : Key) → streak key [] ≡ 0
unfolding streak
streak_nil key = refl

-- One more success after a run, or its end.
abbrev pub next : Bool → ℕ → ℕ
next met n = if met then n + 1 else 0

-- `v` is `s` after a write of both streaks of `key`, seen from the key `j`.
pub record Writes {F : Type 0} (s : ForecastPolicy F) (key j : Key) (v : ForecastPolicy F)
    (strong warn : ℕ) : Type 0 where
  pub strong_after :
      streak j v.strong_streak ≡ (if key =? j then strong else streak j s.strong_streak)
  pub warn_after : streak j v.warn_streak ≡ (if key =? j then warn else streak j s.warn_streak)
  pub same_margin : v.margin_ratio ≡ s.margin_ratio
  pub same_tau : v.tau ≡ s.tau
  pub same_k : v.k ≡ s.k

skip_first :
    (p q : Bool) (a c x : ℕ) {u v : ℕ}
    → p ≡ false
    → u ≡ (if p then a else x)
    → v ≡ (if q then c else u)
    → v ≡ (if q then c else x)
skip_first p q a c x other e g = ground arith

skip_second :
    (p q : Bool) (a c x : ℕ) {u v : ℕ}
    → q ≡ false
    → u ≡ (if p then a else x)
    → v ≡ (if q then c else u)
    → v ≡ (if p then a else x)
skip_second p q a c x other e g = ground arith

module _ {F : Type 0} ⦃f : Float F⦄ where
  module _ (s : ForecastPolicy F) (key j : Key) where
    pub reset_key-Writes : Writes s key j (reset_key key s) 0 0
    unfolding reset_key
    reset_key-Writes = record {
      strong_after = streak-insert key j 0 s.strong_streak;
      warn_after = streak-insert key j 0 s.warn_streak;
      same_margin = refl;
      same_tau = refl;
      same_k = refl;
    }

    normal-Writes :
        (ar : ArimaResult F) (t : F) (eta : Option ℕ)
        → Writes s key j
            (grade_normal s key ar t eta).policy
            (next (strong_cond ar t) (streak key s.strong_streak))
            (next (warn_cond s.margin_ratio s.tau ar t) (streak key s.warn_streak))
    unfolding grade_normal
    normal-Writes ar t eta = record {
      strong_after = streak-insert key j _ s.strong_streak;
      warn_after = streak-insert key j _ s.warn_streak;
      same_margin = refl;
      same_tau = refl;
      same_k = refl;
    }

    path-Writes :
        (p : ForecastPath) (ar : ArimaResult F) (t : F) (eta : Option ℕ)
        → Writes s key j
            (grade_path p s key ar t eta).policy
            (next (not (on_degraded p) && strong_cond ar t) (streak key s.strong_streak))
            (next
              (not (on_degraded p) && warn_cond s.margin_ratio s.tau ar t)
              (streak key s.warn_streak))
    unfolding grade_path
    path-Writes degraded_path ar t eta = reset_key-Writes
    path-Writes _ ar t eta = normal-Writes ar t eta

    pub axis-Writes :
        (ar : ArimaResult F) (t : F)
        → Writes s key j
            (grade_axis s key ar t).policy
            (next (not (on_degraded ar.path) && strong_cond ar t) (streak key s.strong_streak))
            (next
              (not (on_degraded ar.path) && warn_cond s.margin_ratio s.tau ar t)
              (streak key s.warn_streak))
    unfolding grade_axis
    axis-Writes ar t = path-Writes ar.path ar t _

  module _ (s u v : ForecastPolicy F) (k l j : Key) (a b c d : ℕ) where
    -- A write of `k` and then of `l`, seen from a key that is not `k`, or not `l`.
    pub second-Writes :
        (k =? j) ≡ false → Writes s k j u a b → Writes u l j v c d → Writes s l j v c d
    second-Writes other w x = record {
      strong_after = skip_first (k =? j) (l =? j) a c _ other w.strong_after x.strong_after;
      warn_after = skip_first (k =? j) (l =? j) b d _ other w.warn_after x.warn_after;
      same_margin = x.same_margin ∙ w.same_margin;
      same_tau = x.same_tau ∙ w.same_tau;
      same_k = x.same_k ∙ w.same_k;
    }

    pub first-Writes :
        (l =? j) ≡ false → Writes s k j u a b → Writes u l j v c d → Writes s k j v a b
    first-Writes other w x = record {
      strong_after = skip_second (k =? j) (l =? j) a c _ other w.strong_after x.strong_after;
      warn_after = skip_second (k =? j) (l =? j) b d _ other w.warn_after x.warn_after;
      same_margin = x.same_margin ∙ w.same_margin;
      same_tau = x.same_tau ∙ w.same_tau;
      same_k = x.same_k ∙ w.same_k;
    }

module _ {F : Type 0} {s : ForecastPolicy F} {k j : Key} {v : ForecastPolicy F} where
  pub Writes-values : {a b c d : ℕ} → a ≡ c → b ≡ d → Writes s k j v a b → Writes s k j v c d
  Writes-values e g w = subst₂ (λ x y. Writes s k j v x y) e g w
