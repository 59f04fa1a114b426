-- ===== src/Alerts/Missing.antt =====
-- alerts/tasks.py: check_missing_devices, which opens an event for a device that is silent and closes
-- it when the device is heard again.
use icmp.Base.{
  ℕ, ◌+◌, ◌-◌, ◌*◌, ◌/◌, Bool, ◌&&◌, Option, none, some, List, [], ◌∷◌, ltb, if◌then◌else◌, format,
  decimal_text,
}
use icmp.Monitoring.{Device}
use icmp.Alerts.Types.{RuleType, Severity, AlarmRule, AlarmEvent, Store}
use icmp.Alerts.Tables.{
  same_rule_type, when_some, open_of, latest, auto_close, create_alarm_event, with_event,
}

-- last_seen_at < now - timeout, in microseconds
abbrev pub is_before : ℕ → ℕ → ℕ → Bool
is_before now timeout last = ltb (last + timeout * 1_000_000) now

module _ {F : Type 0} where
  -- The body of the loop over the silent devices.
  unfoldable pub miss :
      ℕ → AlarmRule → ℕ → ℕ → ℕ → Device → Store F → Option (AlarmEvent F) → Store F
  unfolding create_alarm_event
  miss now rule timeout last facility device s none =
      create_alarm_event now s rule facility Severity.warning
        (format ("[MISSING] " ∷ device.device_uid ∷ " 데이터 미수신" ∷ [])) (some device.id) none none
        (format (
          "마지막 수신 "
          ∷ decimal_text ((now - last) / 1_000_000)
          ∷ "초 전 (기준: "
          ∷ decimal_text timeout
          ∷ "초)"
          ∷ []))
        none
  miss now rule timeout last facility device s (some e) = with_event s (record e {
    last_seen_at = some now;
    message = format (
        "마지막 수신 "
        ∷ decimal_text ((now - last) / 1_000_000)
        ∷ "초 전 (기준: "
        ∷ decimal_text timeout
        ∷ "초)"
        ∷ []);
  })

  -- The body of the loop over the devices that are heard again.
  unfoldable pub recover : ℕ → Store F → Option (AlarmEvent F) → Store F
  unfolding auto_close
  recover now s none = s
  recover now s (some e) = auto_close now "데이터 수신 재개로 자동 종료" s e

  -- The two loops, for devices of a facility that were seen once. `.filter(…).first()` follows
  -- AlarmEvent.Meta.ordering: it takes the newest of the open events.
  unfoldable pub miss_loop : ℕ → AlarmRule → ℕ → List Device → Store F → Store F
  unfolding miss latest
  miss_loop now rule timeout [] s = s
  miss_loop now rule timeout (d ∷ ds) s = miss_loop now rule timeout ds (
      when_some d.facility s (λ facility. when_some d.last_seen_at s (λ last.
        if is_before now timeout last
        then miss now rule timeout last facility d s (latest (open_of rule.id d.id) s.events)
        else s)))

  unfoldable pub recover_loop : ℕ → AlarmRule → ℕ → List Device → Store F → Store F
  unfolding recover latest
  recover_loop now rule timeout [] s = s
  recover_loop now rule timeout (d ∷ ds) s = recover_loop now rule timeout ds (
      when_some d.facility s (λ facility. when_some d.last_seen_at s (λ last.
        if is_before now timeout last
        then s
        else recover now s (latest (open_of rule.id d.id) s.events))))

  unfoldable pub check_rules : ℕ → List Device → List AlarmRule → Store F → Store F
  unfolding miss_loop recover_loop
  check_rules now devices [] s = s
  check_rules now devices (rule ∷ rules) s = check_rules now devices rules (
      if same_rule_type rule.rule_type RuleType.missing && rule.is_active
      then when_some rule.missing_timeout_seconds s
          (λ timeout. recover_loop now rule timeout devices (miss_loop now rule timeout devices s))
      else s)

  -- check_missing_devices; `devices` is the table in the order of Device.Meta.ordering.
  unfoldable pub check_missing_devices : ℕ → List Device → Store F → Store F
  unfolding check_rules
  check_missing_devices now devices s = check_rules now devices s.rules s
