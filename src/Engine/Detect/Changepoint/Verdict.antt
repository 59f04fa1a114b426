-- ===== src/Engine/Detect/Changepoint/Verdict.antt =====
-- common/modules/change_point.py: what a result of `detect` states.
use icmp.Base.{
  ℕ, ◌<◌, String, ◌≡◌, ◌↔◌, refl, subst, Bool, true, false, not, ◌&&◌, ◌||◌, Option, none, some,
  List, [], All, length, ltb, arith, Bool-cases, inl, inr, All-select,
}
use icmp.Float.{Float, lit, ◌<!◌}
use icmp.Engine.Types.{RiskLevel}
use icmp.Engine.Window.{SlidingWindow, get_values, is_full, valid_ratio}
use icmp.Engine.Detect.{Numeric, PeltAnswer, found, failed}
use icmp.Engine.Detect.Changepoint.{
  ChangePointDetector, ChangePointResult, interpolate_nan, penalty_of, build_unknown, judged, ended,
  detect_signal, detect,
}
use icmp.Engine.Detect.Changepoint.Signal.{KeepsLength, length-interpolate_nan}

abbrev is_found : PeltAnswer → Bool
is_found (found raw) = true
is_found (failed e) = false

module _ {F : Type 0} ⦃f : Float F⦄ where
  -- A signal, if there is one, is flat or Pelt ends with breakpoints.
  abbrev pub can_end : Numeric F → ChangePointDetector F → Option (List F) → Bool
  can_end np d none = false
  can_end np d (some s) =
      f.eq (np.var s) (lit 0) || is_found (np.pelt d.cost_model d.min_size (penalty_of np s) s)

  -- The window is full, has enough values, and a signal that can be judged.
  abbrev pub is_judged :
      Numeric F → SlidingWindow F → ChangePointDetector F → String → String → Bool
  is_judged np w d device sensor =
      is_full w device sensor
      && (not (valid_ratio w device sensor <! d.min_valid_ratio)
          && can_end np d (interpolate_nan np (get_values w device sensor)))

  -- A result, of a window of n values that was judged or not.
  pub record Verdict (is_known : Bool) (n : ℕ) (r : ChangePointResult F) : Type 0 where
    pub unknown_iff : (r.level ≡ RiskLevel.unknown) ↔ (is_known ≡ false)
    pub penalty_iff : (r.penalty ≡ none) ↔ (is_known ≡ false)
    pub caution_iff : (r.level ≡ RiskLevel.caution) ↔ (0 < length r.breakpoints)
    pub flag : r.has_change_point ≡ ltb 0 (length r.breakpoints)
    pub within : All (λ b. b < n) r.breakpoints

  build_unknown-Verdict :
      (w : SlidingWindow F) (d : ChangePointDetector F) (n t : ℕ) (device sensor reason : String)
      (c : ℕ)
      → Verdict false n (build_unknown w d t device sensor reason c)
  unfolding build_unknown
  build_unknown-Verdict w d n t device sensor reason c = record {
    unknown_iff = ground arith;
    penalty_iff = ground arith;
    caution_iff = ground arith;
    flag = refl;
    within = tt;
  }

  judged-Verdict :
      (w : SlidingWindow F) (d : ChangePointDetector F) (n t : ℕ) (device sensor : String)
      (bs : List ℕ) (reason : String) (c : ℕ) (penalty : F)
      → All (λ b. b < n) bs
      → Verdict true n (judged w d t device sensor bs reason c penalty)
  unfolding judged
  judged-Verdict w d n t device sensor bs reason c penalty h = record {
    unknown_iff = ground arith;
    penalty_iff = ground arith;
    caution_iff = ground arith;
    flag = refl;
    within = h;
  }

  ended-Verdict :
      (np : Numeric F) (w : SlidingWindow F) (d : ChangePointDetector F) (t : ℕ)
      (device sensor : String) (c : ℕ) (s : List F) (a : PeltAnswer)
      → Verdict (is_found a) (length s) (ended np w d t device sensor c s a)
  unfolding ended
  ended-Verdict np w d t device sensor c s (failed e) =
      build_unknown-Verdict w d (length s) t device sensor _ c
  ended-Verdict np w d t device sensor c s (found raw) =
      judged-Verdict w d (length s) t device sensor _ _ c _
        (All-select (λ b. ltb b (length s)) raw (λ b h. ground arith))

  detect_signal-Verdict :
      (np : Numeric F) (w : SlidingWindow F) (d : ChangePointDetector F) (n t : ℕ)
      (device sensor : String) (c : ℕ) (o : Option (List F))
      → ((s : List F) → o ≡ some s → length s ≡ n)
      → Verdict (can_end np d o) n (detect_signal np w d t device sensor c o)
  unfolding detect_signal
  detect_signal-Verdict np w d n t device sensor c none h =
      build_unknown-Verdict w d n t device sensor _ c
  detect_signal-Verdict np w d n t device sensor c (some s) h =
      elim (Bool-cases (f.eq (np.var s) (lit 0))) [
        | inl e ↦ rw e (judged-Verdict w d n t device sensor [] _ c _ tt)
        | inr e ↦ rw e (
            subst
              (λ k. Verdict (is_found (np.pelt d.cost_model d.min_size (penalty_of np s) s)) k (
                ended np w d t device sensor c s
                  (np.pelt d.cost_model d.min_size (penalty_of np s) s)))
              (h s refl) (ended-Verdict np w d t device sensor c s _))
      ]

  -- A result is without a verdict exactly for a window that is not full, has too few values, or has
  -- no signal that can be judged; it is CAUTION exactly with a breakpoint, and each breakpoint is an
  -- index of the window's values, when np.interp keeps the length.
  pub detect-Verdict :
      (np : Numeric F)
      → KeepsLength np
      → (now : ℕ) (w : SlidingWindow F) (d : ChangePointDetector F) (device sensor : String)
      → Verdict
          (is_judged np w d device sensor)
          (length (get_values w device sensor))
          (detect np now w d device sensor)
  unfolding detect
  detect-Verdict np k now w d device sensor = elim (Bool-cases (is_full w device sensor)) [
    | inr e ↦ rw e (build_unknown-Verdict w d _ _ device sensor _ _)
    | inl e ↦ elim (Bool-cases (valid_ratio w device sensor <! d.min_valid_ratio)) [
      | inl u ↦ rw e (rw u (build_unknown-Verdict w d _ _ device sensor _ _))
      | inr u ↦ rw e (
          rw u (
            detect_signal-Verdict np w d _ _ device sensor _ _
              (λ s. length-interpolate_nan np k (get_values w device sensor) s)))
    ]
  ]
