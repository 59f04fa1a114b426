-- ===== src/Alerts/Types.antt =====
-- alerts/models.py: the rules, the events and their history, as the rows of three tables.
use icmp.Base.{ℕ, String, Bool, Option, List}

-- AlarmRule.RuleType
pub data RuleType : Type 0 where
  threshold missing power ai forecast : RuleType

-- AlarmEvent.Severity
pub data Severity : Type 0 where
  normal warning danger anomaly predictive_warning : Severity

-- AlarmEvent.EventType
pub data EventType : Type 0 where
  gas_event power_event location_event device_event : EventType

-- AlarmEvent.EventStatus; `open` is a reserved word.
pub data EventStatus : Type 0 where
  opened acknowledged closed : EventStatus

-- EventHistory.ActionType
pub data ActionType : Type 0 where
  acknowledge close reopen : ActionType

pub record AlarmRule : Type 0 where
  pub id : ℕ
  pub rule_type : RuleType
  pub is_active : Bool
  pub missing_timeout_seconds : Option ℕ

pub record AlarmEvent (F : Type 0) : Type 0 where
  pub id : ℕ
  pub rule : ℕ
  pub facility : ℕ
  pub device : Option ℕ
  pub channel : Option ℕ
  pub worker : Option ℕ
  pub severity : Severity
  pub event_type : EventType
  pub title : String
  pub message : String
  pub event_status : EventStatus
  pub occurred_at : ℕ
  pub last_seen_at : Option ℕ
  pub current_value : Option F
  pub acknowledged_by : Option ℕ
  pub acknowledged_at : Option ℕ
  pub closed_at : Option ℕ

pub record EventHistory : Type 0 where
  pub alarm_event : ℕ
  pub action_type : ActionType
  pub action_by : Option ℕ
  pub action_note : String

-- The tables, the id of the next event, and the events handed to `send_all_notifications`.
pub record Store (F : Type 0) : Type 0 where
  pub rules : List AlarmRule
  pub events : List (AlarmEvent F)
  pub histories : List EventHistory
  pub next_id : ℕ
  pub queued : List ℕ
