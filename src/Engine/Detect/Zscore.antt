-- ===== src/Engine/Detect/Zscore.antt =====
-- common/modules/z_score.py: the z-score of a point against the window of its channel.
pub mod Verdict
use icmp.Base.{
  ℕ, String, Bool, true, false, not, ◌&&◌, ◌||◌, Option, none, some, List, [], ◌∷◌, length,
  if◌then◌else◌, format, decimal_text,
}
use icmp.Float.{Float, lit, ◌<=◌, ◌>=◌, ◌<!◌}
use icmp.Engine.Types.{RiskLevel, DataPoint}
use icmp.Engine.Window.{SlidingWindow, get_values, is_full, valid_ratio}
use icmp.Engine.Detect.{Numeric, is_nan, count_valid}

pub record ZScoreResult (F : Type 0) : Type 0 where
  pub timestamp : ℕ
  pub device_id : String
  pub sensor_type : String
  pub value : Option F
  pub z_score : Option F
  pub mean : Option F
  pub std : Option F
  pub level : RiskLevel
  pub is_spike : Bool
  pub reason : String
  pub window_size : ℕ
  pub valid_count : ℕ

-- The window is the caller's object: each call is given its present state.
pub record ZScoreDetector (F : Type 0) : Type 0 where
  pub z_threshold : F
  pub min_valid_ratio : F

pub data ZScoreError (F : Type 0) : Type 0 where
  bad_z_threshold : F → ZScoreError F
  bad_min_valid_ratio : F → ZScoreError F

pub data ZScoreInit (F : Type 0) : Type 0 where
  ok : ZScoreDetector F → ZScoreInit F
  err : ZScoreError F → ZScoreInit F

-- timestamp, or the present time
abbrev time_or : ℕ → Option ℕ → ℕ
time_or now none = now
time_or now (some t) = t

module _ {F : Type 0} ⦃f : Float F⦄ where
  -- __init__
  unfoldable pub init : F → F → ZScoreInit F
  init z_threshold min_valid_ratio =
      if z_threshold <= lit 0
      then err (bad_z_threshold z_threshold)
      else (if lit 0 <= min_valid_ratio && min_valid_ratio <= lit 1
          then ok (record { z_threshold = z_threshold; min_valid_ratio = min_valid_ratio })
          else err (bad_min_valid_ratio min_valid_ratio))

  -- _build_unknown
  unfoldable pub build_unknown : SlidingWindow F → DataPoint F → String → ℕ → ZScoreResult F
  build_unknown w p reason valid_count = record {
    timestamp = p.timestamp;
    device_id = p.device_id;
    sensor_type = p.sensor_type;
    value = p.value;
    z_score = none;
    mean = none;
    std = none;
    level = RiskLevel.unknown;
    is_spike = false;
    reason = reason;
    window_size = w.window_size;
    valid_count = valid_count;
  }

  -- Case 5: the standard deviation is zero or NaN.
  unfoldable pub no_variation : SlidingWindow F → DataPoint F → F → F → ℕ → ZScoreResult F
  no_variation w p mean std valid_count = record {
    timestamp = p.timestamp;
    device_id = p.device_id;
    sensor_type = p.sensor_type;
    value = p.value;
    z_score = some (lit 0);
    mean = some mean;
    std = if is_nan std then none else some std;
    level = RiskLevel.normal;
    is_spike = false;
    reason = "표준편차 0 (변동 없음)";
    window_size = w.window_size;
    valid_count = valid_count;
  }

  unfoldable pub spike_reason : ZScoreDetector F → F → String
  spike_reason d z =
      if f.abs z >= d.z_threshold
      then format
          ("SPIKE 탐지 (|z|=" ∷ f.fixed 2 (f.abs z) ∷ " >= " ∷ f.show d.z_threshold ∷ ")" ∷ [])
      else format ("정상 범위 (|z|=" ∷ f.fixed 2 (f.abs z) ∷ " < " ∷ f.show d.z_threshold ∷ ")" ∷ [])

  -- The rest of `detect`, from the value of z on.
  unfoldable pub judged :
      SlidingWindow F → ZScoreDetector F → DataPoint F → F → F → F → ℕ → ZScoreResult F
  unfolding spike_reason
  judged w d p mean std z valid_count = record {
    timestamp = p.timestamp;
    device_id = p.device_id;
    sensor_type = p.sensor_type;
    value = p.value;
    z_score = some z;
    mean = some mean;
    std = some std;
    level = if f.abs z >= d.z_threshold then RiskLevel.caution else RiskLevel.normal;
    is_spike = f.abs z >= d.z_threshold;
    reason = spike_reason d z;
    window_size = w.window_size;
    valid_count = valid_count;
  }

  -- The cases 4 and 5 of `detect`.
  unfoldable pub scored :
      Numeric F → SlidingWindow F → ZScoreDetector F → DataPoint F → F → List F → ZScoreResult F
  unfolding no_variation judged
  scored np w d p x values =
      let mean = np.nanmean values in
      let std = np.nanstd values in
      if f.eq std (lit 0) || is_nan std
      then no_variation w p mean std (count_valid values)
      else judged w d p mean std (f.div (f.sub x mean) std) (count_valid values)

  -- The cases 2 to 5: `x` is the value of the point.
  unfoldable pub detect_present :
      Numeric F → SlidingWindow F → ZScoreDetector F → DataPoint F → F → ZScoreResult F
  unfolding build_unknown scored get_values is_full valid_ratio
  detect_present np w d p x =
      let values = get_values w p.device_id p.sensor_type in
      let ratio = valid_ratio w p.device_id p.sensor_type in
      if not (is_full w p.device_id p.sensor_type)
      then build_unknown w p
          (format (
            "윈도우 미충족 ("
            ∷ decimal_text (length values)
            ∷ "/"
            ∷ decimal_text w.window_size
            ∷ ")"
            ∷ []))
          (count_valid values)
      else (if ratio <! d.min_valid_ratio
          then build_unknown w p
              (format
                ("유효 비율 부족 (" ∷ f.fixed 2 ratio ∷ " < " ∷ f.show d.min_valid_ratio ∷ ")" ∷ []))
              (count_valid values)
          else scored np w d p x values)

  -- detect, from the value of the point on
  unfoldable pub detect_of :
      Numeric F → SlidingWindow F → ZScoreDetector F → DataPoint F → Option F → ZScoreResult F
  unfolding build_unknown detect_present
  detect_of np w d p none = build_unknown w p "결측" 0
  detect_of np w d p (some x) =
      if not p.is_valid then build_unknown w p "유효하지 않은 측정" 0 else detect_present np w d p x

  unfoldable pub detect :
      Numeric F → SlidingWindow F → ZScoreDetector F → DataPoint F → ZScoreResult F
  unfolding detect_of
  detect np w d p = detect_of np w d p p.value

  -- detect_value
  unfoldable pub detect_value :
      Numeric F
      → ℕ
      → SlidingWindow F
      → ZScoreDetector F
      → String
      → String
      → F
      → Option ℕ
      → ZScoreResult F
  unfolding detect
  detect_value np now w d device sensor x timestamp = detect np w d (record {
    timestamp = time_or now timestamp;
    device_id = device;
    sensor_type = sensor;
    value = some x;
    is_valid = true;
  })
