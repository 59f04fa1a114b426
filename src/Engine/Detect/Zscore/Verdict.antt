-- ===== src/Engine/Detect/Zscore/Verdict.antt =====
-- common/modules/z_score.py: what a result of `detect` states, against the window's own test.
use icmp.Base.{
  ℕ, String, ◌≡◌, ◌≢◌, ◌↔◌, refl, Bool, true, false, not, ◌&&◌, ◌||◌, Option, none, some, List,
  arith, Bool-cases, inl, inr, if◌then◌else◌,
}
use icmp.Float.{Float, IsOrdered, lit, ◌<=◌, ◌>=◌, ◌<!◌}
use icmp.Engine.Types.{RiskLevel, DataPoint}
use icmp.Engine.Window.{
  SlidingWindow, is_full, valid_ratio, get_snapshot, is_usable, is_valid_point,
}
use icmp.Engine.Detect.{Numeric, is_nan}
use icmp.Engine.Detect.Zscore.{
  ZScoreDetector, ZScoreResult, build_unknown, no_variation, judged, scored, detect_present,
  detect_of, detect,
}

module _ {F : Type 0} ⦃f : Float F⦄ where
  -- A result, of a point that was scored or not.
  pub record Scored (is_scored : Bool) (r : ZScoreResult F) : Type 0 where
    pub unknown_iff : (r.level ≡ RiskLevel.unknown) ↔ (is_scored ≡ false)
    pub score_iff : (r.z_score ≡ none) ↔ (is_scored ≡ false)
    pub mean_iff : (r.mean ≡ none) ↔ (is_scored ≡ false)
    pub caution_iff : (r.level ≡ RiskLevel.caution) ↔ (r.is_spike ≡ true)
    pub never_danger : r.level ≢ RiskLevel.danger

  build_unknown-Scored :
      (w : SlidingWindow F) (p : DataPoint F) (reason : String) (c : ℕ)
      → Scored false (build_unknown w p reason c)
  unfolding build_unknown
  build_unknown-Scored w p reason c = record {
    unknown_iff = ground arith;
    score_iff = ground arith;
    mean_iff = ground arith;
    caution_iff = ground arith;
    never_danger = ground arith;
  }

  no_variation-Scored :
      (w : SlidingWindow F) (p : DataPoint F) (mean std : F) (c : ℕ)
      → Scored true (no_variation w p mean std c)
  unfolding no_variation
  no_variation-Scored w p mean std c = record {
    unknown_iff = ground arith;
    score_iff = ground arith;
    mean_iff = ground arith;
    caution_iff = ground arith;
    never_danger = ground arith;
  }

  judged-Scored :
      (w : SlidingWindow F) (d : ZScoreDetector F) (p : DataPoint F) (mean std z : F) (c : ℕ)
      → Scored true (judged w d p mean std z c)
  unfolding judged
  judged-Scored w d p mean std z c = record {
    unknown_iff = ground arith;
    score_iff = ground arith;
    mean_iff = ground arith;
    caution_iff = ground arith;
    never_danger = ground arith;
  }

  scored-Scored :
      (np : Numeric F) (w : SlidingWindow F) (d : ZScoreDetector F) (p : DataPoint F) (x : F)
      (values : List F)
      → Scored true (scored np w d p x values)
  unfolding scored
  scored-Scored np w d p x values =
      elim (Bool-cases (f.eq (np.nanstd values) (lit 0) || is_nan (np.nanstd values))) [
        | inl e ↦ rw e (no_variation-Scored w p _ _ _)
        | inr e ↦ rw e (judged-Scored w d p _ _ _ _)
      ]

  -- Away from NaN, `a < b` is the negation of `a >= b`.
  lt-not_ge : IsOrdered F → (a b : F) → (a <= a) ≡ true → (b <= b) ≡ true → (a <! b) ≡ not (a >= b)
  lt-not_ge o a b ha hb = elim (o.le_total a b ha hb) [
    | inl h ↦ rw (o.lt_def a b) (rw h refl)
    | inr h ↦ rw (o.lt_def a b) (ground arith)
  ]

  detect_present-Scored :
      IsOrdered F
      → (np : Numeric F) (w : SlidingWindow F) (d : ZScoreDetector F) (p : DataPoint F) (x : F)
      → (valid_ratio w p.device_id p.sensor_type <= valid_ratio w p.device_id p.sensor_type) ≡ true
      → (d.min_valid_ratio <= d.min_valid_ratio) ≡ true
      → Scored
          (is_usable (get_snapshot w p.device_id p.sensor_type) d.min_valid_ratio)
          (detect_present np w d p x)
  unfolding detect_present is_usable get_snapshot
  detect_present-Scored o np w d p x hr hm =
      let ratio = valid_ratio w p.device_id p.sensor_type in
      elim (Bool-cases (is_full w p.device_id p.sensor_type)) [
        | inr e ↦ rw e (build_unknown-Scored w p _ _)
        | inl e ↦ elim (Bool-cases (ratio >= d.min_valid_ratio)) [
          | inr u ↦
              rw e (
                rw (lt-not_ge o ratio d.min_valid_ratio hr hm)
                  (rw u (build_unknown-Scored w p _ _)))
          | inl u ↦
              rw e
                (rw (lt-not_ge o ratio d.min_valid_ratio hr hm) (rw u (scored-Scored np w d p x _)))
        ]
      ]

  guarded-Scored :
      (v is_scored : Bool) {r t : ZScoreResult F}
      → Scored false r
      → Scored is_scored t
      → Scored (v && is_scored) (if not v then r else t)
  guarded-Scored true is_scored h g = g
  guarded-Scored false is_scored h g = h

  detect_of-Scored :
      IsOrdered F
      → (np : Numeric F) (w : SlidingWindow F) (d : ZScoreDetector F) (p : DataPoint F)
        (v : Option F)
      → (valid_ratio w p.device_id p.sensor_type <= valid_ratio w p.device_id p.sensor_type) ≡ true
      → (d.min_valid_ratio <= d.min_valid_ratio) ≡ true
      → Scored
          (elim v [ none ↦ false | some x ↦ p.is_valid ]
            && is_usable (get_snapshot w p.device_id p.sensor_type) d.min_valid_ratio)
          (detect_of np w d p v)
  unfolding detect_of
  detect_of-Scored o np w d p none hr hm = build_unknown-Scored w p "결측" 0
  detect_of-Scored o np w d p (some x) hr hm =
      guarded-Scored p.is_valid _ (build_unknown-Scored w p "유효하지 않은 측정" 0)
        (detect_present-Scored o np w d p x hr hm)

  -- A point is without a verdict exactly if it has no valid value or the window's own test refuses
  -- the channel, for ratios that are not NaN; it is CAUTION exactly as a spike, and never DANGER.
  pub detect-Scored :
      IsOrdered F
      → (np : Numeric F) (w : SlidingWindow F) (d : ZScoreDetector F) (p : DataPoint F)
      → (valid_ratio w p.device_id p.sensor_type <= valid_ratio w p.device_id p.sensor_type) ≡ true
      → (d.min_valid_ratio <= d.min_valid_ratio) ≡ true
      → Scored
          (is_valid_point p
            && is_usable (get_snapshot w p.device_id p.sensor_type) d.min_valid_ratio)
          (detect np w d p)
  unfolding detect
  detect-Scored o np w d p hr hm = detect_of-Scored o np w d p p.value hr hm
