-- ===== src/Alerts/Power.antt =====
-- alerts/services.py: check_power_thresholds.
pub mod Repeats
use icmp.Base.{
  ℕ, ◌+◌, String, Bool, ◌&&◌, ◌||◌, Option, none, some, [], ◌∷◌, any, leb, if◌then◌else◌, format,
}
use icmp.Float.{Float, lit, ◌>=◌, ◌<=◌}
use icmp.Monitoring.{Device, DeviceChannel}
use icmp.Monitoring.Power.{load_rate, rated_power}
use icmp.Alerts.Types.{RuleType, Severity, AlarmRule, AlarmEvent, Store}
use icmp.Alerts.Tables.{when_some, active_rule, open_of, on_channel, create_alarm_event}
use icmp.Alerts.Isolation.{channel_label}

-- timedelta(minutes=5), in microseconds
abbrev pub repeat_window : ℕ
repeat_window = 300_000_000

-- _SEVERITY_LABEL
abbrev severity_label : Severity → String
severity_label Severity.danger = "위험"
severity_label s = "주의"

module _ {F : Type 0} where
  -- filter(…, occurred_at__gte=now - 5 minutes)
  abbrev pub recent_open : ℕ → ℕ → ℕ → ℕ → AlarmEvent F → Bool
  recent_open now rule device channel e =
      open_of rule device e && (on_channel channel e && leb now (e.occurred_at + repeat_window))

module _ {F : Type 0} ⦃f : Float F⦄ where
  -- The severity of a load rate, where it calls for an alarm.
  unfoldable pub load_severity : F → Option Severity
  load_severity load =
      if load >= lit 75
      then some Severity.danger
      else if load >= lit 50
      then some Severity.warning
      else none

  unfoldable pub power_event :
      ℕ → Store F → Device → DeviceChannel → F → F → ℕ → AlarmRule → Severity → Store F
  unfolding create_alarm_event
  power_event now s device channel power_w load facility rule severity =
      create_alarm_event now s rule facility severity
        (format (
          "[전력] "
          ∷ channel_label channel
          ∷ " 부하율 "
          ∷ f.fixed 0 load
          ∷ "% "
          ∷ severity_label severity
          ∷ []))
        (some device.id) none (some channel.id)
        (format ("현재 전력: " ∷ f.show power_w ∷ "W, 부하율: " ∷ f.fixed 1 load ∷ "%" ∷ [])) none

  -- check_power_thresholds
  unfoldable pub check_power_thresholds : ℕ → Store F → Device → DeviceChannel → F → Store F
  unfolding load_severity active_rule power_event load_rate
  check_power_thresholds now s device channel power_w = when_some device.facility s (λ facility.
      if (power_w <= lit 0) || (◌<=◌ {F = F} (rated_power channel) (lit 0))
      then s
      else when_some (load_severity (load_rate channel power_w)) s (λ severity.
        when_some (active_rule RuleType.power s.rules) s (λ rule.
          if any (recent_open now rule.id device.id channel.id) s.events
          then s
          else power_event now s device channel power_w (load_rate channel power_w) facility rule
              severity)))
