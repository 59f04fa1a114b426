-- ===== src/Examples/Alarms.antt =====
-- A device whose readings exceed, are normal again, and whose event is reopened by hand.
use icmp.Base.{ℕ, ◌≡◌, refl, true, ◌↔◌, none, some, List, [], ◌∷◌, arith}
use icmp.Float.Fixed.{Fixed, fixed_float, whole}
use icmp.Monitoring.{Device, DeviceChannel, GasReading}
use icmp.Alerts.{RuleType, Severity, EventType, EventStatus, AlarmRule, AlarmEvent, Store}
use icmp.Alerts.Tables.{active_rule}
use icmp.Alerts.Tables.Counts.{bit}
use icmp.Alerts.Gas.{check_gas_thresholds}
use icmp.Alerts.Gas.Tracking.{has_any, open_count, check_gas_thresholds-count}
use icmp.Monitoring.Gas.{check_threshold_exceeded}
use icmp.Alerts.Status.{change_event_status}
use icmp.Alerts.Status.Transitions.{is_ok, Target, change_event_status_iff}
use icmp.Alerts.Steps.{Steps}
use icmp.Alerts.Steps.Soundness.{IsSound}
use icmp.Alerts.Steps.Growth.{Grows}
use icmp.Alerts.Commands.{Command, gas_thresholds, missing_devices, status_change, run}
use icmp.Alerts.Commands.Runs.{run-Steps, run-IsSound, run-Grows}

abbrev gases : ℕ → GasReading Fixed
gases co = record {
  device = 1;
  co = some (whole co);
  h2s = none;
  co2 = none;
  o2 = none;
  no2 = none;
  so2 = none;
  o3 = none;
  nh3 = none;
  voc = none;
  measured_at = 10;
  quality_flag = "ok";
}

abbrev device : Device
device = record {
  id = 1;
  device_uid = "g1";
  facility = some 4;
  is_active = true;
  status = "normal";
  last_seen_at = none;
}

abbrev gas_rule : AlarmRule
gas_rule = record {
  id = 9;
  rule_type = RuleType.threshold;
  is_active = true;
  missing_timeout_seconds = none;
}

abbrev store : Store Fixed
store = record { rules = gas_rule ∷ []; events = []; histories = []; next_id = 1; queued = [] }

abbrev commands : List (Command Fixed)
commands =
    gas_thresholds 10 [] device (gases 60)
    ∷ gas_thresholds 20 [] device (gases 5)
    ∷ status_change 30 1 "open" (some 2) ""
    ∷ missing_devices 500_000_000 (device ∷ [])
    ∷ []

abbrev event : AlarmEvent Fixed
event = record {
  id = 1;
  rule = 9;
  facility = 4;
  device = some 1;
  channel = none;
  worker = none;
  severity = Severity.warning;
  event_type = EventType.gas_event;
  title = "";
  message = "";
  event_status = EventStatus.opened;
  occurred_at = 10;
  last_seen_at = none;
  current_value = none;
  acknowledged_by = none;
  acknowledged_at = none;
  closed_at = none;
}

sound : IsSound store
sound = record {
  ids_below = tt;
  ids_distinct = tt;
  queued_below = tt;
  queued_distinct = tt;
  times = tt;
}

run-Steps_example : Steps store (run store commands)
run-Steps_example = run-Steps store commands

run-IsSound_example : IsSound (run store commands)
run-IsSound_example = run-IsSound store commands sound

run-Grows_example : Grows store (run store commands)
run-Grows_example = run-Grows store commands

change_event_status_iff_example :
    (is_ok (change_event_status 30 store event "closed" (some 2) "") ≡ true)
    ↔ Target EventStatus.opened "closed"
change_event_status_iff_example = change_event_status_iff 30 store event "closed" (some 2) ""

placed : active_rule RuleType.threshold store.rules ≡ some gas_rule
unfolding active_rule
placed = refl

check_gas_thresholds-count_example :
    open_count 9 1 (check_gas_thresholds [] 10 store device (gases 60))
    ≡ bit (has_any (check_threshold_exceeded [] (gases 60) "알림"))
check_gas_thresholds-count_example =
    check_gas_thresholds-count [] 10 store device (gases 60) gas_rule 4 refl refl placed
      sound.ids_distinct (omega arith)

abbrev panel : DeviceChannel
panel = record {
  id = 3;
  device = 1;
  channel_code = "CH1";
  channel_name = "";
  is_active = true;
  status = "active";
  rated_power_w = 500;
}

abbrev power_rule : AlarmRule
power_rule = record {
  id = 8;
  rule_type = RuleType.power;
  is_active = true;
  missing_timeout_seconds = none;
}

abbrev power_store : Store Fixed
power_store = record store { rules = power_rule ∷ [] }

power_active : active_rule RuleType.power power_store.rules ≡ some power_rule
unfolding active_rule
power_active = refl
