-- ===== src/Alerts/Tables.antt =====
-- alerts/services.py: the queries that the handlers share, `create_alarm_event`, and the automatic
-- close. An event's times come from one reading of the clock, `now`.
pub mod Queries
pub mod Counts
use icmp.Base.{
  ℕ, ◌+◌, String, Bool, true, false, ◌&&◌, Option, none, some, List, [], ◌∷◌, ◌++◌, ltb, ◌==◌,
  if◌then◌else◌,
}
use icmp.Alerts.Types.{
  RuleType, threshold, missing, power, ai, forecast, Severity, EventType, gas_event, power_event,
  device_event, EventStatus, opened, acknowledged, closed, ActionType, close, AlarmRule, AlarmEvent,
  EventHistory, Store,
}

-- `if x is None: return`, and what follows it
abbrev pub when_some : {A S : Type 0} → Option A → S → (A → S) → S
when_some none s k = s
when_some (some a) s k = k a

abbrev pub same_rule_type : RuleType → RuleType → Bool
same_rule_type threshold threshold = true
same_rule_type missing missing = true
same_rule_type power power = true
same_rule_type ai ai = true
same_rule_type forecast forecast = true
same_rule_type a b = false

abbrev pub is_open : EventStatus → Bool
is_open opened = true
is_open s = false

-- AlarmRule.objects.filter(rule_type=…, is_active=True).first(); the table is ordered by id.
unfoldable pub active_rule : RuleType → List AlarmRule → Option AlarmRule
active_rule t [] = none
active_rule t (r ∷ rs) =
    if same_rule_type r.rule_type t && r.is_active then some r else active_rule t rs

-- _RULE_TYPE_TO_EVENT_TYPE
abbrev pub event_type_of : RuleType → EventType
event_type_of threshold = gas_event
event_type_of power = power_event
event_type_of missing = device_event
event_type_of ai = gas_event
event_type_of forecast = gas_event

abbrev same_id : Option ℕ → ℕ → Bool
same_id none n = false
same_id (some m) n = m == n

module _ {F : Type 0} where
  -- filter(rule=rule, device=device, event_status=OPEN)
  abbrev pub open_of : ℕ → ℕ → AlarmEvent F → Bool
  open_of rule device e = e.rule == rule && (same_id e.device device && is_open e.event_status)

  -- filter(…, channel=channel)
  abbrev pub on_channel : ℕ → AlarmEvent F → Bool
  on_channel channel e = same_id e.channel channel

  newer : Option (AlarmEvent F) → AlarmEvent F → AlarmEvent F
  newer none e = e
  newer (some b) e = if ltb b.occurred_at e.occurred_at then e else b

  latest_from :
      (AlarmEvent F → Bool) → Option (AlarmEvent F) → List (AlarmEvent F) → Option (AlarmEvent F)
  unfolding newer
  latest_from p best [] = best
  latest_from p best (e ∷ es) = latest_from p (if p e then some (newer best e) else best) es

  -- .filter(p).order_by('-occurred_at').first(), where an earlier row wins a tie
  unfoldable pub latest : (AlarmEvent F → Bool) → List (AlarmEvent F) → Option (AlarmEvent F)
  unfolding latest_from
  latest p es = latest_from p none es

  -- event.save(): the row of that id
  unfoldable pub save : AlarmEvent F → List (AlarmEvent F) → List (AlarmEvent F)
  save e [] = []
  save e (x ∷ xs) = (if x.id == e.id then e else x) ∷ save e xs

  abbrev pub with_event : Store F → AlarmEvent F → Store F
  with_event s e = record s { events = save e s.events }

  -- The close that the handlers write out: the row, and its history.
  unfoldable pub auto_close : ℕ → String → Store F → AlarmEvent F → Store F
  unfolding save
  auto_close now note s e = record s {
    events = save (record e { event_status = closed; closed_at = some now }) s.events;
    histories =
        s.histories
        ++ (record { alarm_event = e.id; action_type = close; action_by = none; action_note = note }
            ∷ []);
  }

  abbrev pub new_event :
      ℕ
      → ℕ
      → AlarmRule
      → ℕ
      → Severity
      → String
      → Option ℕ
      → Option ℕ
      → Option ℕ
      → String
      → Option F
      → AlarmEvent F
  new_event id now rule facility severity title device worker channel message value = record {
    id = id;
    rule = rule.id;
    facility = facility;
    device = device;
    channel = channel;
    worker = worker;
    severity = severity;
    event_type = event_type_of rule.rule_type;
    title = title;
    message = message;
    event_status = opened;
    occurred_at = now;
    last_seen_at = some now;
    current_value = value;
    acknowledged_by = none;
    acknowledged_at = none;
    closed_at = none;
  }

  -- create_alarm_event; the Prometheus counter is left out.
  unfoldable pub create_alarm_event :
      ℕ
      → Store F
      → AlarmRule
      → ℕ
      → Severity
      → String
      → Option ℕ
      → Option ℕ
      → Option ℕ
      → String
      → Option F
      → Store F
  create_alarm_event now s rule facility severity title device worker channel message value =
      record s {
        events =
            s.events
            ++ (new_event s.next_id now rule facility severity title device worker channel message
                  value
                ∷ []);
        next_id = s.next_id + 1;
        queued = s.queued ++ (s.next_id ∷ []);
      }
