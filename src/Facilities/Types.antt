-- ===== src/Facilities/Types.antt =====
-- facilities/models.py: the columns that the services read. A floor is its id.
use icmp.Base.{ℕ, String, Bool, Option, List, true, false}

-- The choices of Geofence.Severity, and of the safety_status of a worker.
pub data Severity : Type 0 where
  danger warning safe : Severity

abbrev pub same_severity : Severity → Severity → Bool
same_severity danger danger = true
same_severity warning warning = true
same_severity safe safe = true
same_severity a b = false

-- `radius` and the centre are of a circle, `polygon_data` of a polygon; null and [] are the same to
-- the code.
pub record Geofence (F : Type 0) : Type 0 where
  pub id : ℕ
  pub floor : ℕ
  pub name : String
  pub geofence_type : String
  pub severity : Severity
  pub description : String
  pub is_active : Bool
  pub center_x : Option F
  pub center_y : Option F
  pub radius : Option F
  pub polygon_data : List (F × F)

pub data CurrentState : Type 0 where
  on_duty off_duty : CurrentState

pub record Worker : Type 0 where
  pub id : ℕ
  pub current_state : CurrentState
  pub safety_status : Severity

pub record WorkerLocation (F : Type 0) : Type 0 where
  pub worker : ℕ
  pub floor : Option ℕ
  pub x : F
  pub y : F
  pub measured_at : ℕ

pub record SensorLocation (F : Type 0) : Type 0 where
  pub device_id : ℕ
  pub floor : Option ℕ
  pub device_name : String
  pub is_active : Bool
  pub x : Option F
  pub y : Option F
