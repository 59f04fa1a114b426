-- ===== src/Alerts/Power/Repeats.antt =====
-- alerts/services.py: how often check_power_thresholds raises an alarm.
use icmp.Base.{
  ℕ, ◌+◌, ◌≤◌, ◌≡◌, refl, ◌∙◌, Bool, true, false, ◌||◌, Option, none, some, List, [], ◌∷◌, ◌++◌,
  any, if◌then◌else◌, ==_iff, arith,
}
use icmp.Float.{Float, lit, ◌<=◌}
use icmp.Monitoring.{Device, DeviceChannel}
use icmp.Monitoring.Power.{load_rate, rated_power}
use icmp.Alerts.Types.{RuleType, Severity, AlarmRule, Store}
use icmp.Alerts.Tables.{active_rule, create_alarm_event, when_some}
use icmp.Alerts.Power.{
  repeat_window, recent_open, load_severity, power_event, check_power_thresholds,
}

any-append :
    {A : Type 0} (p : A → Bool) (xs : List A) (y : A) → p y ≡ true → any p (xs ++ (y ∷ [])) ≡ true
any-append p [] y h = ground arith
any-append p (x ∷ xs) y h = ground (arith, any-append p xs y h)

module _ {F : Type 0} ⦃f : Float F⦄ (device : Device) (channel : DeviceChannel) (power_w : F) where
  -- check_power_thresholds, where its guards and the rule are given.
  checked : ℕ → Store F → Option ℕ → Bool → Option Severity → Option AlarmRule → Store F
  unfolding power_event load_rate
  checked now s o b sv a = when_some o s (λ facility.
      if b
      then s
      else when_some sv s (λ severity. when_some a s (λ rule.
        if any (recent_open now rule.id device.id channel.id) s.events
        then s
        else power_event now s device channel power_w (load_rate channel power_w) facility rule
            severity)))

  no_load : Bool
  no_load = (power_w <= lit 0) || (◌<=◌ {F = F} (rated_power channel) (lit 0))

  is_checked :
      (now : ℕ) (s : Store F)
      → check_power_thresholds now s device channel power_w
        ≡ checked now s device.facility no_load
            (load_severity (load_rate channel power_w))
            (active_rule RuleType.power s.rules)
  unfolding check_power_thresholds checked no_load
  is_checked now s = refl

  module _ (now later : ℕ) (s : Store F) (rule : AlarmRule) where
    raised-recent :
        (facility : ℕ) (severity : Severity)
        → later ≤ now + repeat_window
        → any
            (recent_open later rule.id device.id channel.id)
            (power_event now s device channel power_w
              (load_rate channel power_w)
              facility
              rule
              severity).events
          ≡ true
    unfolding power_event create_alarm_event
    raised-recent facility severity soon =
        any-append (recent_open later rule.id device.id channel.id) s.events _ (
          ground (
            arith,
            ==_iff rule.id rule.id,
            ==_iff device.id device.id,
            ==_iff channel.id channel.id,
          ))

    raised-rules :
        (facility : ℕ) (severity : Severity)
        → (power_event now s device channel power_w
            (load_rate channel power_w)
            facility
            rule
            severity).rules
          ≡ s.rules
    unfolding power_event create_alarm_event
    raised-rules facility severity = refl

    checked-twice :
        (o : Option ℕ) (b : Bool) (sv : Option Severity)
        → later ≤ now + repeat_window
        → any (recent_open now rule.id device.id channel.id) s.events ≡ false
        → active_rule RuleType.power s.rules ≡ some rule
        → checked later
            (checked now s o b sv (some rule))
            o
            b
            sv
            (active_rule RuleType.power (checked now s o b sv (some rule)).rules)
          ≡ checked now s o b sv (some rule)
    unfolding checked
    checked-twice none b sv soon quiet active = refl
    checked-twice (some facility) true sv soon quiet active = refl
    checked-twice (some facility) false none soon quiet active = refl
    checked-twice (some facility) false (some severity) soon quiet active =
        rw (quiet, raised-rules facility severity, active, raised-recent facility severity soon)
          refl

    -- Where no open alarm of the channel is less than five minutes old, a second check of the same power
    -- within five minutes changes nothing: at most one alarm is raised.
    pub check_power_thresholds-twice :
        later ≤ now + repeat_window
        → active_rule RuleType.power s.rules ≡ some rule
        → any (recent_open now rule.id device.id channel.id) s.events ≡ false
        → check_power_thresholds later
            (check_power_thresholds now s device channel power_w)
            device
            channel
            power_w
          ≡ check_power_thresholds now s device channel power_w
    check_power_thresholds-twice soon active quiet =
        rw (is_checked now s, active)
          (is_checked later _
            ∙ checked-twice device.facility no_load (load_severity (load_rate channel power_w)) soon
                quiet active)
