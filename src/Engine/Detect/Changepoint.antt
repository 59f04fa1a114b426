-- ===== src/Engine/Detect/Changepoint.antt =====
-- common/modules/change_point.py: ChangePointDetector, its construction and `detect`.
pub mod Signal
pub mod Verdict
use icmp.Base.{
  ℕ, ◌*◌, String, Bool, true, false, not, ◌&&◌, Option, none, some, List, [], ◌∷◌, map, length,
  select, all, any, ltb, if◌then◌else◌, Dict, format, join, decimal_text,
}
use Prim.Native.Nat.{max}
use icmp.Float.{Float, lit, ◌<=◌, ◌<!◌}
use icmp.Engine.Types.{RiskLevel, DataPoint}
use icmp.Engine.Window.{Key, SlidingWindow, get, get_values, is_full, valid_ratio}
use icmp.Engine.Detect.{
  Numeric, PeltAnswer, found, failed, is_nan, without_nan, count_valid, last_timestamp,
}

-- enums/cp_purpose.py
pub data CpPurpose : Type 0 where
  flow_detection predict_validation : CpPurpose

pub record ChangePointResult (F : Type 0) : Type 0 where
  pub timestamp : ℕ
  pub device_id : String
  pub sensor_type : String
  pub purpose : CpPurpose
  pub breakpoints : List ℕ
  pub has_change_point : Bool
  pub level : RiskLevel
  pub reason : String
  pub window_size : ℕ
  pub min_size : ℕ
  pub valid_count : ℕ
  pub penalty : Option F

-- The window is the caller's object: each call is given its present state.
pub record ChangePointDetector (F : Type 0) : Type 0 where
  pub purpose : CpPurpose
  pub min_size_ratio : F
  pub significance_level : F
  pub min_valid_ratio : F
  pub cost_model : String
  pub magnitude_gate : F
  pub contamination_block : ℕ
  pub min_size : ℕ
  pub last_contamination : Dict Key Bool

-- A purpose is a CPPurpose by its type, so the first `ValueError` has no counterpart.
pub data ChangePointError (F : Type 0) : Type 0 where
  bad_min_size_ratio : F → ChangePointError F
  bad_significance_level : F → ChangePointError F
  bad_min_valid_ratio : F → ChangePointError F

pub data ChangePointInit (F : Type 0) : Type 0 where
  ok : ChangePointDetector F → ChangePointInit F
  err : ChangePointError F → ChangePointInit F

-- range(n) from `i` on
abbrev pub indices : {F : Type 0} → ℕ → List F → List ℕ
indices i [] = []
indices i (x ∷ xs) = i ∷ indices (ℕ.suc i) xs

-- str of a list of integers
unfoldable pub list_text : List ℕ → String
list_text xs = format ("[" ∷ join ", " (map decimal_text xs) ∷ "]" ∷ [])

unfoldable pub change_reason : List ℕ → String
unfolding list_text
change_reason [] = "변화점 없음"
change_reason (b ∷ bs) =
    format ("변화점 " ∷ decimal_text (length (b ∷ bs)) ∷ "개 탐지: " ∷ list_text (b ∷ bs) ∷ [])

module _ {F : Type 0} ⦃f : Float F⦄ where
  -- The detector that the arguments make, once they are accepted.
  unfoldable pub built :
      Numeric F → SlidingWindow F → CpPurpose → F → F → F → String → F → ℕ → ChangePointDetector F
  built np w purpose min_size_ratio significance_level min_valid_ratio cost_model gate block =
      record {
        purpose = purpose;
        min_size_ratio = min_size_ratio;
        significance_level = significance_level;
        min_valid_ratio = min_valid_ratio;
        cost_model = cost_model;
        magnitude_gate = gate;
        contamination_block = block;
        min_size = max 1 (np.int (f.mul (lit w.window_size) min_size_ratio));
        last_contamination = [];
      }

  -- __init__
  unfoldable pub init :
      Numeric F → SlidingWindow F → CpPurpose → F → F → F → String → F → ℕ → ChangePointInit F
  unfolding built
  init np w purpose min_size_ratio significance_level min_valid_ratio cost_model gate block =
      if not (lit 0 <! min_size_ratio && min_size_ratio <= f.decimal 5 1)
      then err (bad_min_size_ratio min_size_ratio)
      else (if not (lit 0 <! significance_level && significance_level <! lit 1)
          then err (bad_significance_level significance_level)
          else (if not (lit 0 <= min_valid_ratio && min_valid_ratio <= lit 1)
              then err (bad_min_valid_ratio min_valid_ratio)
              else ok (
                  built np w purpose min_size_ratio significance_level min_valid_ratio cost_model
                    gate block)))

  -- x[~nan_mask], for the positions `x` of the values
  unfoldable pub valid_indices : List ℕ → List F → List ℕ
  valid_indices [] values = []
  valid_indices (i ∷ is) [] = []
  valid_indices (i ∷ is) (x ∷ xs) =
      let rest = valid_indices is xs in if is_nan x then rest else i ∷ rest

  -- _interpolate_nan
  unfoldable pub interpolate_nan : Numeric F → List F → Option (List F)
  unfolding valid_indices
  interpolate_nan np values =
      if all is_nan values
      then none
      else (if not (any is_nan values)
          then some values
          else (let x = indices 0 values in
              some (np.interp x (valid_indices x values) (without_nan values))))

  -- _build_unknown
  unfoldable pub build_unknown :
      SlidingWindow F
      → ChangePointDetector F
      → ℕ
      → String
      → String
      → String
      → ℕ
      → ChangePointResult F
  build_unknown w d timestamp device sensor reason valid_count = record {
    timestamp = timestamp;
    device_id = device;
    sensor_type = sensor;
    purpose = d.purpose;
    breakpoints = [];
    has_change_point = false;
    level = RiskLevel.unknown;
    reason = reason;
    window_size = w.window_size;
    min_size = d.min_size;
    valid_count = valid_count;
    penalty = none;
  }

  -- The result of a signal that was judged.
  unfoldable pub judged :
      SlidingWindow F
      → ChangePointDetector F
      → ℕ
      → String
      → String
      → List ℕ
      → String
      → ℕ
      → F
      → ChangePointResult F
  judged w d timestamp device sensor breakpoints reason valid_count penalty =
      let has_cp = ltb 0 (length breakpoints) in
      record {
        timestamp = timestamp;
        device_id = device;
        sensor_type = sensor;
        purpose = d.purpose;
        breakpoints = breakpoints;
        has_change_point = has_cp;
        level = if has_cp then RiskLevel.caution else RiskLevel.normal;
        reason = reason;
        window_size = w.window_size;
        min_size = d.min_size;
        valid_count = valid_count;
        penalty = some penalty;
      }

  -- float(np.log(len(signal)) * variance)
  unfoldable pub penalty_of : Numeric F → List F → F
  penalty_of np signal = f.mul (np.log (lit (length signal))) (np.var signal)

  -- The end of `detect`, of Pelt's answer for a signal.
  unfoldable pub ended :
      Numeric F
      → SlidingWindow F
      → ChangePointDetector F
      → ℕ
      → String
      → String
      → ℕ
      → List F
      → PeltAnswer
      → ChangePointResult F
  unfolding build_unknown judged penalty_of change_reason
  ended np w d last_ts device sensor valid_count signal (failed e) =
      build_unknown w d last_ts device sensor (format ("Pelt 알고리즘 오류: " ∷ e ∷ [])) valid_count
  ended np w d last_ts device sensor valid_count signal (found raw) =
      let breakpoints = select (λ b. ltb b (length signal)) raw in
      judged w d last_ts device sensor breakpoints (change_reason breakpoints) valid_count
        (penalty_of np signal)

  -- The cases 3 to 5 of `detect`, of the signal if there is one.
  unfoldable pub detect_signal :
      Numeric F
      → SlidingWindow F
      → ChangePointDetector F
      → ℕ
      → String
      → String
      → ℕ
      → Option (List F)
      → ChangePointResult F
  unfolding build_unknown judged penalty_of ended
  detect_signal np w d last_ts device sensor valid_count none =
      build_unknown w d last_ts device sensor "신호 변환 실패 (전부 결측)" valid_count
  detect_signal np w d last_ts device sensor valid_count (some signal) =
      if f.eq (np.var signal) (lit 0)
      then judged w d last_ts device sensor [] "분산 0 (변동 없음)" valid_count (lit 0)
      else ended np w d last_ts device sensor valid_count signal
          (np.pelt d.cost_model d.min_size (penalty_of np signal) signal)

  -- detect; the argument `now` is the present time.
  unfoldable pub detect :
      Numeric F
      → ℕ
      → SlidingWindow F
      → ChangePointDetector F
      → String
      → String
      → ChangePointResult F
  unfolding last_timestamp get get_values is_full valid_ratio build_unknown interpolate_nan
      detect_signal
  detect np now w d device sensor =
      let points = get w device sensor in
      let ratio = valid_ratio w device sensor in
      let values = get_values w device sensor in
      let last_ts = last_timestamp now points in
      if not (is_full w device sensor)
      then build_unknown w d last_ts device sensor
          (format (
            "윈도우 미충족 ("
            ∷ decimal_text (length points)
            ∷ "/"
            ∷ decimal_text w.window_size
            ∷ ")"
            ∷ []))
          (count_valid values)
      else (if ratio <! d.min_valid_ratio
          then build_unknown w d last_ts device sensor
              (format
                ("유효 비율 부족 (" ∷ f.fixed 2 ratio ∷ " < " ∷ f.show d.min_valid_ratio ∷ ")" ∷ []))
              (count_valid values)
          else detect_signal np w d last_ts device sensor (count_valid values)
              (interpolate_nan np values))
