-- ===== src/Examples/Notices.antt =====
-- Two events of one rule, facility and severity, a minute apart.
use icmp.Base.{ℕ, ◌≡◌, refl, Bool, true, false, none, some, List, [], ◌∷◌, arith}
use icmp.Float.Fixed.{Fixed}
use icmp.Alerts.{Severity, EventType, EventStatus, AlarmEvent}
use icmp.Alerts.Commands.{event_of}
use icmp.Alerts.Notices.{AlarmPolicy, Notices, is_cooling, policy_for}
use icmp.Alerts.Notices.Policies.{Newest, policy_for-Newest}
use icmp.Alerts.Notices.Cooldown.{Call, send, send_each, send_all_notifications-paused}

abbrev event : ℕ → AlarmEvent Fixed
event id = record {
  id = id;
  rule = 9;
  facility = 4;
  device = some 1;
  channel = none;
  worker = none;
  severity = Severity.warning;
  event_type = EventType.gas_event;
  title = "";
  message = "";
  event_status = EventStatus.opened;
  occurred_at = 10;
  last_seen_at = none;
  current_value = none;
  acknowledged_by = none;
  acknowledged_at = none;
  closed_at = none;
}

abbrev events : List (AlarmEvent Fixed)
events = event 1 ∷ event 2 ∷ []

abbrev quiet : Notices
quiet = record { cooling = []; queued = [] }

abbrev call : ℕ → ℕ → Call Fixed
call now id = record { now = now; policies = []; events = events; id = id }

send_all_notifications-paused_example :
    send (call 60_000_000 2) (send_each (call 30_000_000 1 ∷ []) (send (call 0 1) quiet))
    ≡ send_each (call 30_000_000 1 ∷ []) (send (call 0 1) quiet)
unfolding event_of is_cooling
send_all_notifications-paused_example =
    send_all_notifications-paused (call 0 1) (call 60_000_000 2) (call 30_000_000 1 ∷ []) (event 1)
      (event 2) quiet refl refl refl refl refl refl (omega arith)

abbrev policy : ℕ → Bool → AlarmPolicy
policy time used = record {
  event_type = "가스 경보";
  is_active = used;
  channels = "Slack" ∷ [];
  updated_at = time;
}

abbrev policies : List AlarmPolicy
policies = policy 1 true ∷ policy 3 true ∷ policy 5 false ∷ []

policy_for-Newest_example : Newest "가스 경보" policies (policy_for "가스 경보" policies)
policy_for-Newest_example = policy_for-Newest "가스 경보" policies refl
