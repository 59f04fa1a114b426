-- ===== src/Monitoring/Gas/Limits.antt =====
-- monitoring/services.py: the limits that get_thresholds collects from the policies of a scope.
use icmp.Base.{
  String, ◌≡◌, refl, ap, ◌∙◌, Bool, true, false, ◌&&◌, not, Option, none, some, List, [], ◌∷◌,
  select, if◌then◌else◌, lookup, insert, lookup-insert, string_eq, ◌=?◌, arith,
}
use icmp.Float.{Float}
use icmp.Monitoring.Types.{ThresholdPolicy}
use icmp.Monitoring.Gas.{
  Thresholds, applies, add_limits, add_policy, collect, thresholds_of, get_thresholds,
}

abbrev pub is_cons : {A : Type 0} → List A → Bool
is_cons [] = false
is_cons (x ∷ xs) = true

if_same : {A : Type 0} (b : Bool) (a : A) → a ≡ (if b then a else a)
if_same true a = refl
if_same false a = refl

choose :
    {A : Type 0} (same o2 : Bool) (a old : A)
    → (if o2 then old else (if same then a else old)) ≡ (if same && not o2 then a else old)
choose true true a old = refl
choose true false a old = refl
choose false true a old = refl
choose false false a old = refl

module _ {F : Type 0} ⦃f : Float F⦄ where
  -- The limits that one policy gives to a metric, over those it has.
  abbrev both_limits : Option (F × F) → Option F → Option F → Option (F × F)
  both_limits old (some w) (some x) = some (w, x)
  both_limits old _ _ = old

  abbrev pub limits_by : String → ThresholdPolicy F → Option (F × F) → Option (F × F)
  limits_by metric p old =
      if (p.metric_code =? metric) && not (p.metric_code =? "o2")
      then both_limits old p.warning_max p.danger_max
      else old

  -- The limits of a metric after policies: those of the last policy of the metric that has both.
  abbrev pub limits_of : String → Option (F × F) → List (ThresholdPolicy F) → Option (F × F)
  limits_of metric old [] = old
  limits_of metric old (p ∷ ps) = limits_of metric (limits_by metric p old) ps

  lookup_if :
      (b : Bool) (metric : String) (d e : Thresholds F)
      → lookup metric (if b then d else e) ≡ (if b then lookup metric d else lookup metric e)
  lookup_if true metric d e = refl
  lookup_if false metric d e = refl

  lookup-add_limits :
      (metric code : String) (w x : Option F) (d : Thresholds F)
      → lookup metric (add_limits code w x d) ≡ (
          if (code =? metric) && not (code =? "o2")
          then both_limits (lookup metric d) w x
          else lookup metric d)
  unfolding add_limits
  lookup-add_limits metric code none x d = if_same _ (lookup metric d)
  lookup-add_limits metric code (some w) none d = if_same _ (lookup metric d)
  lookup-add_limits metric code (some w) (some x) d =
      lookup_if (code =? "o2") metric d (insert code (w, x) d)
      ∙ ap (λ o. if code =? "o2" then lookup metric d else o) (lookup-insert code metric (w, x) d)
      ∙ choose (code =? metric) (code =? "o2") (some (w, x)) (lookup metric d)

  lookup-add_policy :
      (metric : String) (p : ThresholdPolicy F) (d : Thresholds F)
      → lookup metric (add_policy p d) ≡ limits_by metric p (lookup metric d)
  unfolding add_policy
  lookup-add_policy metric p d = lookup-add_limits metric p.metric_code p.warning_max p.danger_max d

  lookup-collect :
      (metric : String) (ps : List (ThresholdPolicy F)) (d : Thresholds F)
      → lookup metric (collect d ps) ≡ limits_of metric (lookup metric d) ps
  unfolding collect
  lookup-collect metric [] d = refl
  lookup-collect metric (p ∷ ps) d =
      lookup-collect metric ps (add_policy p d)
      ∙ ap (λ o. limits_of metric o ps) (lookup-add_policy metric p d)

  lookup-thresholds_of :
      (metric : String) (ps : List (ThresholdPolicy F))
      → is_cons ps ≡ true
      → lookup metric (thresholds_of ps) ≡ limits_of metric none ps
  unfolding thresholds_of
  lookup-thresholds_of metric [] some_ = ground arith
  lookup-thresholds_of metric (p ∷ ps) some_ = lookup-collect metric (p ∷ ps) []

  -- Once any active policy applies to the scope, the limits of a metric are those of the last such policy
  -- of the metric, other than O2, that has both; with none, the metric has no limits, and the defaults
  -- are not used.
  pub lookup-get_thresholds :
      (policies : List (ThresholdPolicy F)) (scope metric : String)
      → is_cons (select (applies scope) policies) ≡ true
      → lookup metric (get_thresholds policies scope)
        ≡ limits_of metric none (select (applies scope) policies)
  unfolding get_thresholds
  lookup-get_thresholds policies scope metric some_ =
      lookup-thresholds_of metric (select (applies scope) policies) some_
