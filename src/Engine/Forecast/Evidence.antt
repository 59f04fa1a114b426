-- ===== src/Engine/Forecast/Evidence.antt =====
-- common/integration/forecast_policy.py: the parts of a result beside the confidences, which are the
-- evidence of the present level and the first step.
use icmp.Base.{
  ℕ, suc, ◌+◌, String, ◌≡◌, refl, ap, subst, Bool, true, false, ◌&&◌, Option, none, some, List, [],
  ◌∷◌, ◌++◌, any, length, leb, string_eq, ◌=?◌, arith, Bool-cases, inl, inr,
}
use icmp.Float.{Float}
use icmp.Engine.Types.{RiskLevel}
use icmp.Engine.Forecast.Data.{
  ForecastPath, unknown_path, ArimaResult, ForecastPolicy, Output, conf_rank,
}
use icmp.Engine.Forecast.{
  reaches, first_reach, grade_known, grade_limits, grade_side, grade, graded, ungraded, is_risk,
}

-- Two outcomes agree in all but the present level and what is drawn from it.
pub record SameGrades {F : Type 0} (o p : Output F) : Type 0 where
  pub policy : o.policy ≡ p.policy
  pub caution : o.result.caution_confidence ≡ p.result.caution_confidence
  pub danger : o.result.danger_confidence ≡ p.result.danger_confidence
  pub severity : o.result.headline_severity ≡ p.result.headline_severity
  pub headline : o.result.headline_confidence ≡ p.result.headline_confidence
  pub caution_eta : o.result.caution_eta_step ≡ p.result.caution_eta_step
  pub danger_eta : o.result.danger_eta_step ≡ p.result.danger_eta_step

-- The flag of an outcome at a present level.
abbrev pub IsCorroborated : {F : Type 0} → RiskLevel → Output F → Type 0
IsCorroborated present o =
    o.result.corroborated ≡ (is_risk present && leb 1 (conf_rank o.result.headline_confidence))

module _ {F : Type 0} ⦃f : Float F⦄ where
  module _ (s : ForecastPolicy F) (ar : ArimaResult F) (present other : RiskLevel) where
    ungraded-same :
        (reason : String)
        → SameGrades (ungraded s ar reason present) (ungraded s ar reason other)
          × IsCorroborated present (ungraded s ar reason present)
    unfolding ungraded
    ungraded-same reason = (
      record {
        policy = refl;
        caution = refl;
        danger = refl;
        severity = refl;
        headline = refl;
        caution_eta = refl;
        danger_eta = refl;
      },
      refl,
    )

    graded-same :
        (x y : F)
        → SameGrades (graded s ar x y present) (graded s ar x y other)
          × IsCorroborated present (graded s ar x y present)
    unfolding graded
    graded-same x y = (
      record {
        policy = refl;
        caution = refl;
        danger = refl;
        severity = refl;
        headline = refl;
        caution_eta = refl;
        danger_eta = refl;
      },
      refl,
    )

    known-same :
        (p : ForecastPath) (x y : F)
        → SameGrades (grade_known p s ar x y present) (grade_known p s ar x y other)
          × IsCorroborated present (grade_known p s ar x y present)
    unfolding grade_known
    known-same unknown_path x y = ungraded-same _
    known-same _ x y = graded-same x y

    limits-same :
        (x y : Option F)
        → SameGrades (grade_limits s ar x y present) (grade_limits s ar x y other)
          × IsCorroborated present (grade_limits s ar x y present)
    unfolding grade_limits
    limits-same (some x) (some y) = known-same ar.path x y
    limits-same _ _ = ungraded-same _

    side-same :
        (high : Bool) (x y : Option F) (direction : String)
        → SameGrades
            (grade_side high s ar x y direction present)
            (grade_side high s ar x y direction other)
          × IsCorroborated present (grade_side high s ar x y direction present)
    unfolding grade_side
    side-same true x y direction = limits-same x y
    side-same false x y direction = ungraded-same _

  -- The present level is evidence only: whatever it is, the streaks, both confidences, the headline
  -- and the first steps are the same, and the outcome is corroborated exactly when the present level
  -- is CAUTION or DANGER and the headline is at least TENTATIVE.
  pub grade-SameGrades :
      (s : ForecastPolicy F) (ar : ArimaResult F) (caution danger : Option F) (direction : String)
      (present other : RiskLevel)
      → SameGrades
          (grade s ar caution danger direction present)
          (grade s ar caution danger direction other)
        × IsCorroborated present (grade s ar caution danger direction present)
  unfolding grade
  grade-SameGrades s ar caution danger direction present other =
      side-same s ar present other (direction =? "high") caution danger direction

-- The first element that passes, at its place counted from 1.
pub record IsFirst {A : Type 0} (p : A → Bool) (xs : List A) (e : ℕ) : Type 0 where
  pub before : List A
  pub found : A
  pub after : List A
  pub splits : xs ≡ before ++ (found ∷ after)
  pub place : e ≡ length before + 1
  pub passes : p found ≡ true
  pub none_before : any p before ≡ false

-- What a search for the first element that passes reports: its place, or that none passes.
abbrev pub FirstStep : {A : Type 0} → (A → Bool) → List A → Option ℕ → Type 0
FirstStep p xs none = any p xs ≡ false
FirstStep p xs (some e) = IsFirst p xs e

module _ {F : Type 0} ⦃f : Float F⦄ (m t : F) where
  first_reach-some :
      (h e : ℕ) (xs : List F)
      → first_reach m t h xs ≡ some e
      → (n : ℕ) × (e ≡ h + n) × IsFirst (reaches m t) xs n
  unfolding first_reach
  first_reach-some h e [] found = cc
  first_reach-some h e (x ∷ xs) found = elim (Bool-cases (reaches m t x)) [
    | inl hit ↦ (
      1,
      ground arith,
      record {
        before = [];
        found = x;
        after = xs;
        splits = refl;
        place = refl;
        passes = hit;
        none_before = refl;
      },
    )
    | inr miss ↦
        let (n, place, r) = first_reach-some (suc h) e xs (ground arith) in
        (
          suc n,
          omega arith,
          record {
            before = x ∷ r.before;
            found = r.found;
            after = r.after;
            splits = ap (λ l. x ∷ l) r.splits;
            place = omega (arith, r.place);
            passes = r.passes;
            none_before = rw miss r.none_before;
          },
        )
  ]

  first_reach-none :
      (h : ℕ) (xs : List F) → first_reach m t h xs ≡ none → any (reaches m t) xs ≡ false
  unfolding first_reach
  first_reach-none h [] found = refl
  first_reach-none h (x ∷ xs) found = ground (arith, first_reach-none (suc h) xs)

  first_step :
      (xs : List F) (o : Option ℕ) → first_reach m t 0 xs ≡ o → FirstStep (reaches m t) xs o
  first_step xs none found = first_reach-none 0 xs found
  first_step xs (some e) found =
      let (n, place, r) = first_reach-some 0 e xs found in
      let same : n ≡ e = omega arith in subst (IsFirst (reaches m t) xs) same r

  -- The reported step of an axis is the place, counted from 1, of the first forecast whose value with
  -- the margin reaches the limit; where no step is reported, no forecast reaches it.
  pub first_reach-FirstStep : (xs : List F) → FirstStep (reaches m t) xs (first_reach m t 0 xs)
  first_reach-FirstStep xs = first_step xs (first_reach m t 0 xs) refl
