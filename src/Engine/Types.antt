-- ===== src/Engine/Types.antt =====
-- common/data_types/data_point.py, common/enums/*.py
use icmp.Base.{ℕ, String, Bool, Option}

-- enums/risk_level.py
pub data RiskLevel : Type 0 where
  normal caution danger unknown : RiskLevel

-- RiskLevel.value
abbrev pub level_text : RiskLevel → String
level_text RiskLevel.normal = "정상"
level_text RiskLevel.caution = "주의"
level_text RiskLevel.danger = "위험"
level_text RiskLevel.unknown = "판정불가"

-- data_types/data_point.py; a timestamp is a number of microseconds.
pub record DataPoint (F : Type 0) : Type 0 where
  pub timestamp : ℕ
  pub device_id : String
  pub sensor_type : String
  pub value : Option F
  pub is_valid : Bool
