-- ===== src/Engine/Threshold.antt =====
-- common/modules/threshold.py: one value against the limits of its sensor.
pub mod Verdict
pub mod Table
use icmp.Base.{
  ℕ, String, Bool, true, false, ◌||◌, Option, none, some, List, [], ◌∷◌, if◌then◌else◌, string_eq,
  ◌=?◌, Dict, lookup, format,
}
use icmp.Float.{Float, ◌>=◌, ◌<=◌}
use icmp.Engine.Types.{RiskLevel, normal, caution, danger, unknown, DataPoint}

-- One entry of the table; a key that the dict lacks is `none`.
pub record Info (F : Type 0) : Type 0 where
  pub direction : Option String
  pub caution_limit : Option F
  pub danger_limit : Option F
  pub caution_high : Option F
  pub danger_high : Option F
  pub caution_low : Option F
  pub danger_low : Option F

-- `Optional[Union[float, tuple]]`
pub data Limit (F : Type 0) : Type 0 where
  one : Option F → Limit F
  range : Option F → Option F → Limit F

pub record ThresholdResult (F : Type 0) : Type 0 where
  pub timestamp : ℕ
  pub device_id : String
  pub sensor_type : String
  pub value : Option F
  pub level : RiskLevel
  pub threshold_caution : Limit F
  pub threshold_danger : Limit F
  pub direction : String
  pub reason : String

-- The `ValueError` of `__init__`: the sensor and its direction.
pub data InitError : Type 0 where
  bad_direction : String → Option String → InitError

pub data InitResult (F : Type 0) : Type 0 where
  ok : Dict String (Info F) → InitResult F
  err : InitError → InitResult F

-- direction in _ALLOWED_DIRECTIONS
unfoldable pub is_allowed : Option String → Bool
is_allowed none = false
is_allowed (some d) = (d =? "high") || (d =? "low") || (d =? "both")

abbrev pub text_of : Option String → String
text_of none = ""
text_of (some d) = d

module _ {F : Type 0} where
  check_directions : Dict String (Info F) → Option InitError
  check_directions [] = none
  check_directions ((sensor, info) ∷ rest) =
      if is_allowed info.direction
      then check_directions rest
      else some (bad_direction sensor info.direction)

  -- __init__
  unfoldable pub init : Dict String (Info F) → InitResult F
  unfolding check_directions is_allowed
  init table = elim (check_directions table) [ none ↦ ok table | some e ↦ err e ]

  -- info["direction"]; `__init__` has refused a missing one.
  abbrev pub direction_of : Info F → String
  direction_of info = text_of info.direction

  -- _extract_thresholds
  unfoldable pub extract_thresholds : Info F → Limit F × Limit F
  extract_thresholds info =
      if (direction_of info =? "high") || (direction_of info =? "low")
      then (one info.caution_limit, one info.danger_limit)
      else (range info.caution_low info.caution_high, range info.danger_low info.danger_high)

  -- has_threshold
  pub has_threshold : Dict String (Info F) → String → Bool
  has_threshold table sensor = elim (lookup sensor table) [ none ↦ false | some info ↦ true ]

module _ {F : Type 0} ⦃f : Float F⦄ where
  unfoldable pub evaluate_high : Option F → Option F → F → RiskLevel
  evaluate_high (some c) (some d) v = if v >= d then danger else if v >= c then caution else normal
  evaluate_high _ _ v = unknown

  unfoldable pub evaluate_low : Option F → Option F → F → RiskLevel
  evaluate_low (some c) (some d) v = if v <= d then danger else if v <= c then caution else normal
  evaluate_low _ _ v = unknown

  unfoldable pub evaluate_both : Option F → Option F → Option F → Option F → F → RiskLevel
  evaluate_both (some ch) (some dh) (some cl) (some dl) v =
      if (v >= dh) || (v <= dl) then danger else if (v >= ch) || (v <= cl) then caution else normal
  evaluate_both _ _ _ _ v = unknown

  unfoldable pub evaluate_side : String → Info F → F → RiskLevel
  unfolding evaluate_high evaluate_low evaluate_both
  evaluate_side direction info v =
      if direction =? "high"
      then evaluate_high info.caution_limit info.danger_limit v
      else if direction =? "low"
      then evaluate_low info.caution_limit info.danger_limit v
      else evaluate_both info.caution_high info.danger_high info.caution_low info.danger_low v

  -- _evaluate
  unfoldable pub evaluate : Info F → F → RiskLevel
  unfolding evaluate_side
  evaluate info v = evaluate_side (direction_of info) info v

  -- value >= info[key]; the key is there whenever the level is not UNKNOWN.
  abbrev pub reaches : F → Option F → Bool
  reaches v none = false
  reaches v (some t) = v >= t

  unfoldable pub side_reason : String → F → String → Option F → String
  side_reason direction v suffix high =
      if direction =? "high"
      then format ("고측 " ∷ suffix ∷ [])
      else if direction =? "low"
      then format ("저측 " ∷ suffix ∷ [])
      else if reaches v high
      then format ("고측 " ∷ suffix ∷ [])
      else format ("저측 " ∷ suffix ∷ [])

  -- _build_reason
  unfoldable pub build_reason : Info F → F → RiskLevel → String
  unfolding side_reason
  build_reason info v normal = "정상 범위"
  build_reason info v unknown = "임계 정보 불충분"
  build_reason info v caution = side_reason (direction_of info) v "주의 임계 초과" info.caution_high
  build_reason info v danger = side_reason (direction_of info) v "위험 임계 초과" info.danger_high

  -- classify_value
  unfoldable pub classify_value : Dict String (Info F) → String → F → RiskLevel
  classify_value table sensor v = elim (lookup sensor table) [
    | none ↦ unknown
    | some info ↦ evaluate info v
  ]

  abbrev refused : DataPoint F → String → ThresholdResult F
  refused p why = record {
    timestamp = p.timestamp;
    device_id = p.device_id;
    sensor_type = p.sensor_type;
    value = p.value;
    level = unknown;
    threshold_caution = one none;
    threshold_danger = one none;
    direction = "";
    reason = why;
  }

  abbrev judged : DataPoint F → Info F → F → ThresholdResult F
  judged p info v =
      let (c, d) = extract_thresholds info in
      record {
        timestamp = p.timestamp;
        device_id = p.device_id;
        sensor_type = p.sensor_type;
        value = p.value;
        level = evaluate info v;
        threshold_caution = c;
        threshold_danger = d;
        direction = direction_of info;
        reason = build_reason info v (evaluate info v);
      }

  classify_present : Dict String (Info F) → DataPoint F → Option F → ThresholdResult F
  classify_present table p none = refused p "결측"
  classify_present table p (some v) =
      if p.is_valid
      then elim (lookup p.sensor_type table) [
        | none ↦ refused p "임계치 미정의"
        | some info ↦ judged p info v
      ]
      else refused p "유효하지 않은 측정"

  -- classify
  unfoldable pub classify : Dict String (Info F) → DataPoint F → ThresholdResult F
  unfolding classify_present
  classify table p = classify_present table p p.value
