-- ===== src/Alerts/Steps/Timeouts.antt =====
-- alerts/tasks.py: check_missing_devices against the step relation.
use icmp.Base.{ℕ, ◌&&◌, Option, none, some, List, [], ◌∷◌, arith}
use icmp.Monitoring.{Device}
use icmp.Alerts.Types.{RuleType, AlarmRule, AlarmEvent, Store}
use icmp.Alerts.Tables.{same_rule_type, is_open, open_of, latest}
use icmp.Alerts.Tables.Queries.{latest-Finds}
use icmp.Alerts.Missing.{
  miss, recover, is_before, miss_loop, recover_loop, check_rules, check_missing_devices,
}
use icmp.Alerts.Steps.{opens, refreshes, closes, Steps, stop, one, Steps-trans}
use icmp.Alerts.Steps.Handlers.{when-Steps, if-Steps, Open, weaken}

module _ {F : Type 0} where
  latest-Open : (rule device : ℕ) (s : Store F) → Open s (latest (open_of rule device) s.events)
  latest-Open rule device s =
      weaken (open_of rule device) (λ e. is_open e.event_status) s.events
        (latest (open_of rule device) s.events) (λ e h. ground arith)
        (latest-Finds (open_of rule device) s.events)

  miss-Steps :
      (now : ℕ) (rule : AlarmRule) (timeout last facility : ℕ) (device : Device) (s : Store F)
      (o : Option (AlarmEvent F))
      → Open s o
      → Steps s (miss now rule timeout last facility device s o)
  unfolding miss
  miss-Steps now rule timeout last facility device s none found =
      one (opens now rule facility _ _ _ _ _ _ _)
  miss-Steps now rule timeout last facility device s (some e) found =
      one (refreshes _ _ _ _ e found.0 found.1)

  recover-Steps :
      (now : ℕ) (s : Store F) (o : Option (AlarmEvent F)) → Open s o → Steps s (recover now s o)
  unfolding recover
  recover-Steps now s none found = stop
  recover-Steps now s (some e) found = one (closes now _ e found.0 found.1)

  miss_loop-Steps :
      (now : ℕ) (rule : AlarmRule) (timeout : ℕ) (ds : List Device) (s : Store F)
      → Steps s (miss_loop now rule timeout ds s)
  unfolding miss_loop
  miss_loop-Steps now rule timeout [] s = stop
  miss_loop-Steps now rule timeout (d ∷ ds) s =
      Steps-trans
        (when-Steps d.facility (λ facility. when-Steps d.last_seen_at (λ last.
          if-Steps (is_before now timeout last)
            (miss-Steps now rule timeout last facility d s _ (latest-Open rule.id d.id s)) stop)))
        (miss_loop-Steps now rule timeout ds _)

  recover_loop-Steps :
      (now : ℕ) (rule : AlarmRule) (timeout : ℕ) (ds : List Device) (s : Store F)
      → Steps s (recover_loop now rule timeout ds s)
  unfolding recover_loop
  recover_loop-Steps now rule timeout [] s = stop
  recover_loop-Steps now rule timeout (d ∷ ds) s =
      Steps-trans
        (when-Steps d.facility (λ facility. when-Steps d.last_seen_at (λ last.
          if-Steps (is_before now timeout last) stop
            (recover-Steps now s _ (latest-Open rule.id d.id s)))))
        (recover_loop-Steps now rule timeout ds _)

  check_rules-Steps :
      (now : ℕ) (ds : List Device) (rules : List AlarmRule) (s : Store F)
      → Steps s (check_rules now ds rules s)
  unfolding check_rules
  check_rules-Steps now ds [] s = stop
  check_rules-Steps now ds (rule ∷ rules) s =
      Steps-trans
        (if-Steps (same_rule_type rule.rule_type RuleType.missing && rule.is_active)
          (when-Steps rule.missing_timeout_seconds (λ timeout.
            Steps-trans (miss_loop-Steps now rule timeout ds s)
              (recover_loop-Steps now rule timeout ds (miss_loop now rule timeout ds s))))
          stop)
        (check_rules-Steps now ds rules _)

  pub check_missing_devices-Steps :
      (now : ℕ) (ds : List Device) (s : Store F) → Steps s (check_missing_devices now ds s)
  unfolding check_missing_devices
  check_missing_devices-Steps now ds s = check_rules-Steps now ds s.rules s
