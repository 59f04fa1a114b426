-- ===== src/Engine/Threshold/Verdict.antt =====
-- common/modules/threshold.py: the verdicts of the classifier.
use icmp.Base.{
  ℕ, ◌≤◌, String, Bool, true, false, ◌≡◌, sym, ap, ◌∙◌, ◌↔◌, ◌⊎◌, ◌&&◌, ◌||◌, Option, none, some,
  arith, lookup, Dict, string_eq, ◌=?◌, if◌then◌else◌,
}
use icmp.Float.{Float, IsOrdered, ◌<=◌, ◌>=◌}
use icmp.Engine.Types.{RiskLevel, normal, caution, danger, unknown, DataPoint}
use icmp.Engine.Threshold.{
  Info, classify, classify_value, reaches, evaluate, evaluate_side, side_reason, build_reason,
  text_of, evaluate_high, evaluate_low, evaluate_both, direction_of,
}

-- How grave a level is; UNKNOWN is no verdict.
abbrev pub rank : RiskLevel → ℕ
rank normal = 0
rank caution = 1
rank danger = 2
rank unknown = 0

abbrev pub worse : RiskLevel → RiskLevel → RiskLevel
worse danger l = danger
worse l danger = danger
worse caution l = caution
worse l caution = caution
worse l k = normal

abbrev pub is_set : {A : Type 0} → Option A → Bool
is_set none = false
is_set (some a) = true

-- The entry has every limit that its direction reads.
abbrev pub has_limits : {F : Type 0} → Info F → Bool
has_limits info =
    if direction_of info =? "high"
    then is_set info.caution_limit && is_set info.danger_limit
    else if direction_of info =? "low"
    then is_set info.caution_limit && is_set info.danger_limit
    else is_set info.caution_high
      && is_set info.danger_high
      && is_set info.caution_low
      && is_set info.danger_low

abbrev pub entry_has_limits : {F : Type 0} → Option (Info F) → Bool
entry_has_limits none = false
entry_has_limits (some info) = has_limits info

module _ {F : Type 0} ⦃f : Float F⦄ where
  evaluate_iff : (info : Info F) (v : F) → (evaluate info v ≡ unknown) ↔ (has_limits info ≡ false)
  unfolding evaluate
  evaluate_iff info v = ground arith

  -- A point is left without a verdict exactly when its value is missing, it is marked invalid, its
  -- sensor has no entry, or the entry lacks a limit of its direction.
  pub classify-unknown_iff :
      (table : Dict String (Info F)) (p : DataPoint F)
      → ((classify table p).level ≡ unknown) ↔ (
          (is_set p.value && (p.is_valid && entry_has_limits (lookup p.sensor_type table))) ≡ false)
  unfolding classify
  classify-unknown_iff table p = grind (arith, evaluate_iff)

  -- On a valid point with a value, `classify` and `classify_value` give the same level.
  pub classify-level :
      (table : Dict String (Info F)) (p : DataPoint F) (v : F)
      → p.value ≡ some v
      → p.is_valid ≡ true
      → (classify table p).level ≡ classify_value table p.sensor_type v
  unfolding classify classify_value
  classify-level table p v has valid = ground arith

  evaluate_both-eq_worse :
      (ch dh cl dl v : F)
      → evaluate_both (some ch) (some dh) (some cl) (some dl) v
        ≡ worse (evaluate_high (some ch) (some dh) v) (evaluate_low (some cl) (some dl) v)
  unfolding evaluate_both evaluate_high evaluate_low
  evaluate_both-eq_worse ch dh cl dl v = ground arith

  module _ (info : Info F) (v : F) where
    evaluate_high_eq :
        info.direction ≡ some "high"
        → evaluate info v ≡ evaluate_high info.caution_limit info.danger_limit v
    unfolding evaluate
    evaluate_high_eq h = ap (λ d. evaluate_side (text_of d) info v) h

    evaluate_low_eq :
        info.direction ≡ some "low"
        → evaluate info v ≡ evaluate_low info.caution_limit info.danger_limit v
    unfolding evaluate
    evaluate_low_eq h = ap (λ d. evaluate_side (text_of d) info v) h

    evaluate_both_eq :
        info.direction ≡ some "both"
        → evaluate info v
          ≡ evaluate_both info.caution_high info.danger_high info.caution_low info.danger_low v
    unfolding evaluate
    evaluate_both_eq h = ap (λ d. evaluate_side (text_of d) info v) h

  -- The two-sided entry with all four limits judges a value by the worse of its upper and its lower
  -- side, each as the one-sided entry with that side's limits would judge it.
  pub evaluate-both_sides :
      (info high low : Info F) (ch dh cl dl v : F)
      → info.direction ≡ some "both"
      → high.direction ≡ some "high"
      → low.direction ≡ some "low"
      → (info.caution_high ≡ some ch) × (info.danger_high ≡ some dh)
      → (info.caution_low ≡ some cl) × (info.danger_low ≡ some dl)
      → (high.caution_limit ≡ some ch) × (high.danger_limit ≡ some dh)
      → (low.caution_limit ≡ some cl) × (low.danger_limit ≡ some dl)
      → evaluate info v ≡ worse (evaluate high v) (evaluate low v)
  evaluate-both_sides info high low ch dh cl dl v i h l ih il hl ll = cc (
    evaluate_both-eq_worse ch dh cl dl v,
    evaluate_both_eq info v i,
    evaluate_high_eq high v h,
    evaluate_low_eq low v l,
    ih.0,
    ih.1,
    il.0,
    il.1,
    hl.0,
    hl.1,
    ll.0,
    ll.1,
  )

  classify-judged :
      (table : Dict String (Info F)) (p : DataPoint F) (info : Info F) (v : F)
      → p.value ≡ some v
      → p.is_valid ≡ true
      → lookup p.sensor_type table ≡ some info
      → ((classify table p).reason ≡ build_reason info v (evaluate info v))
        × ((classify table p).level ≡ evaluate info v)
  unfolding classify
  classify-judged table p info v has valid found = ground arith

  build_reason_both :
      (info : Info F) (v dh : F)
      → info.direction ≡ some "both"
      → info.danger_high ≡ some dh
      → build_reason info v danger ≡ (if v >= dh then "고측 위험 임계 초과" else "저측 위험 임계 초과")
  unfolding build_reason
  build_reason_both info v dh both limit =
      ap (λ d. side_reason (text_of d) v "위험 임계 초과" info.danger_high) both
      ∙ ap (λ (o : Option F). if reaches v o then "고측 위험 임계 초과" else "저측 위험 임계 초과") limit

  danger_both :
      (ch dh cl dl : Option F) (v h l : F)
      → (dh ≡ some h) × (dl ≡ some l)
      → evaluate_both ch dh cl dl v ≡ danger
      → ((v >= h) || (v <= l)) ≡ true
  unfolding evaluate_both
  danger_both ch dh cl dl v h l limits bad = ground arith

  -- A reason given for a two-sided entry names a side that the value has reached: the upper side
  -- with its limit, else the lower one.
  pub classify-reason_both :
      (table : Dict String (Info F)) (p : DataPoint F) (info : Info F) (v dh dl : F)
      → p.value ≡ some v
      → p.is_valid ≡ true
      → lookup p.sensor_type table ≡ some info
      → info.direction ≡ some "both"
      → (info.danger_high ≡ some dh) × (info.danger_low ≡ some dl)
      → (classify table p).level ≡ danger
      → (((classify table p).reason ≡ "고측 위험 임계 초과") × ((v >= dh) ≡ true))
        ⊎ (((classify table p).reason ≡ "저측 위험 임계 초과") × ((v >= dh) ≡ false) × ((v <= dl) ≡ true))
  classify-reason_both table p info v dh dl has valid found both limits bad =
      let (why, level) = classify-judged table p info v has valid found in
      let graded : evaluate info v ≡ danger = sym level ∙ bad in
      let text : (classify table p).reason ≡ (if v >= dh then "고측 위험 임계 초과" else "저측 위험 임계 초과") =
        why ∙ ap (build_reason info v) graded ∙ build_reason_both info v dh both limits.0 in
      let hit = danger_both _ _ _ _ v dh dl limits (sym (evaluate_both_eq info v both) ∙ graded) in
      ground arith

  module _ (laws : IsOrdered F) where
    open laws use {le_trans}

    high :
        (c d : Option F) (v w : F)
        → (v <= w) ≡ true
        → rank (evaluate_high c d v) ≤ rank (evaluate_high c d w)
    unfolding evaluate_high
    high none d v w h = omega arith
    high (some c) none v w h = omega arith
    high (some c) (some d) v w h = ground (arith, le_trans d v w, le_trans c v w)

    low :
        (c d : Option F) (v w : F)
        → (v <= w) ≡ true
        → rank (evaluate_low c d w) ≤ rank (evaluate_low c d v)
    unfolding evaluate_low
    low none d v w h = omega arith
    low (some c) none v w h = omega arith
    low (some c) (some d) v w h = ground (arith, le_trans v w d, le_trans v w c)

    evaluate-high_mono :
        (info : Info F) (v w : F)
        → info.direction ≡ some "high"
        → (v <= w) ≡ true
        → rank (evaluate info v) ≤ rank (evaluate info w)
    evaluate-high_mono info v w d h =
        rw (evaluate_high_eq info v d, evaluate_high_eq info w d)
          (high info.caution_limit info.danger_limit v w h)

    evaluate-low_mono :
        (info : Info F) (v w : F)
        → info.direction ≡ some "low"
        → (v <= w) ≡ true
        → rank (evaluate info w) ≤ rank (evaluate info v)
    evaluate-low_mono info v w d h =
        rw (evaluate_low_eq info v d, evaluate_low_eq info w d)
          (low info.caution_limit info.danger_limit v w h)

    -- With order laws: a larger value is never judged milder by an entry for the high side, and never
    -- graver by one for the low side.
    pub evaluate_mono :
        (hi lo : Info F) (v w : F)
        → hi.direction ≡ some "high"
        → lo.direction ≡ some "low"
        → (v <= w) ≡ true
        → (rank (evaluate hi v) ≤ rank (evaluate hi w))
          × (rank (evaluate lo w) ≤ rank (evaluate lo v))
    evaluate_mono hi lo v w above below h =
        (evaluate-high_mono hi v w above h, evaluate-low_mono lo v w below h)
