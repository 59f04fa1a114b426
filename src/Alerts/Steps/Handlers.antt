-- ===== src/Alerts/Steps/Handlers.antt =====
-- alerts/services.py: the handlers against the step relation.
use icmp.Base.{
  ℕ, ◌≡◌, Bool, true, false, ◌&&◌, ◌||◌, string_eq, ◌=?◌, Option, none, some, List, [], ◌∷◌,
  if◌then◌else◌, arith, any,
}
use icmp.Float.{Float, lit, ◌<=◌}
use icmp.Engine.Forecast.Data.{ForecastPolicyResult}
use icmp.Monitoring.{Device, DeviceChannel, GasReading, ThresholdPolicy}
use icmp.Monitoring.Gas.{Exceeded, check_threshold_exceeded}
use icmp.Monitoring.Power.{load_rate, rated_power}
use icmp.Alerts.Types.{RuleType, AlarmRule, AlarmEvent, Store}
use icmp.Alerts.Tables.{active_rule, when_some, is_open, open_of, latest}
use icmp.Alerts.Tables.Queries.{Finds, latest-Finds}
use icmp.Alerts.Gas.{
  gas_exceeded, check_gas_thresholds, ZResult, raise_anomalies, with_anomalies,
  trigger_anomaly_alarms, CpEvent, CpResult, cp_event, cp_one, cp_loop, trigger_changepoint_alarms,
}
use icmp.Alerts.Isolation.{
  is_unknown, is_normal, IfResult, IfTexts, if_alarm, if_guarded, trigger_if_anomaly_alarms,
  trigger_if_anomaly_alarms_power,
}
use icmp.Alerts.Prediction.{
  Alarm, forecast_event, forecast_one, forecast_loop, trigger_forecast_alarms,
}
use icmp.Alerts.Power.{load_severity, recent_open, check_power_thresholds, power_event}
use icmp.Alerts.Steps.{opens, refreshes, closes, Steps, stop, one, Steps-trans}

module _ {F : Type 0} {s : Store F} where
  pub when-Steps :
      {A : Type 0} {k : A → Store F} (o : Option A)
      → ((a : A) → Steps s (k a))
      → Steps s (when_some o s k)
  when-Steps none h = stop
  when-Steps (some a) h = h a

  pub if-Steps : {t u : Store F} (b : Bool) → Steps s t → Steps s u → Steps s (if b then t else u)
  if-Steps true h k = h
  if-Steps false h k = k

module _ {F : Type 0} where
  abbrev pub Open : Store F → Option (AlarmEvent F) → Type 0
  Open s o = Finds (λ e. is_open e.event_status) s.events o

  pub weaken :
      (p q : AlarmEvent F → Bool) (es : List (AlarmEvent F)) (o : Option (AlarmEvent F))
      → ((e : AlarmEvent F) → p e ≡ true → q e ≡ true)
      → Finds p es o
      → Finds q es o
  weaken p q es none h found = tt
  weaken p q es (some e) h found = (found.0, h e found.1)

  -- The latest of the open events of a rule and a device that pass a test is open.
  latest-Open :
      (rule device : ℕ) (q : AlarmEvent F → Bool) (s : Store F)
      → Open s (latest (λ e. open_of rule device e && q e) s.events)
  latest-Open rule device q s =
      weaken (λ e. open_of rule device e && q e) (λ e. is_open e.event_status) s.events
        (latest (λ e. open_of rule device e && q e) s.events) (λ e h. ground arith)
        (latest-Finds (λ e. open_of rule device e && q e) s.events)

  latest-Open_all : (rule device : ℕ) (s : Store F) → Open s (latest (open_of rule device) s.events)
  latest-Open_all rule device s =
      weaken (open_of rule device) (λ e. is_open e.event_status) s.events
        (latest (open_of rule device) s.events) (λ e h. ground arith)
        (latest-Finds (open_of rule device) s.events)

module _ {F : Type 0} where
  if_alarm-Steps :
      (now : ℕ) (s : Store F) (rule : AlarmRule) (facility : ℕ) (device : Device) (t : IfTexts)
      (r : IfResult F) (b : Bool) (o : Option (AlarmEvent F))
      → Open s o
      → Steps s (if_alarm now s rule facility device t r b o)
  unfolding if_alarm
  if_alarm-Steps now s rule facility device t r true none found = stop
  if_alarm-Steps now s rule facility device t r true (some e) found =
      one (closes now _ e found.0 found.1)
  if_alarm-Steps now s rule facility device t r false (some e) found =
      one (refreshes _ _ _ _ e found.0 found.1)
  if_alarm-Steps now s rule facility device t r false none found =
      one (opens now rule facility _ _ _ _ _ _ _)

  if_guarded-Steps :
      (query : ℕ → AlarmEvent F → Bool) (now : ℕ) (s : Store F) (device : Device) (t : IfTexts)
      (r : IfResult F)
      → ((rule : ℕ) → Open s (latest (query rule) s.events))
      → Steps s (if_guarded query now s device t r)
  unfolding if_guarded
  if_guarded-Steps query now s device t r found = when-Steps device.facility (λ facility.
      if-Steps (is_unknown r.level) stop (
        when-Steps (active_rule RuleType.ai s.rules) (λ rule.
          if_alarm-Steps now s rule facility device t r (is_normal r.level) _ (found rule.id))))

  pub trigger_if_anomaly_alarms-Steps :
      (now : ℕ) (s : Store F) (device : Device) (r : Option (IfResult F))
      → Steps s (trigger_if_anomaly_alarms now s device r)
  unfolding trigger_if_anomaly_alarms
  trigger_if_anomaly_alarms-Steps now s device none = stop
  trigger_if_anomaly_alarms-Steps now s device (some r) =
      if_guarded-Steps _ now s device _ r (λ rule. latest-Open_all rule device.id s)

  pub trigger_if_anomaly_alarms_power-Steps :
      (now : ℕ) (s : Store F) (device : Device) (channel : DeviceChannel) (r : Option (IfResult F))
      → Steps s (trigger_if_anomaly_alarms_power now s device channel r)
  unfolding trigger_if_anomaly_alarms_power
  trigger_if_anomaly_alarms_power-Steps now s device channel none = stop
  trigger_if_anomaly_alarms_power-Steps now s device channel (some r) =
      if_guarded-Steps _ now s device _ r (λ rule. latest-Open rule device.id _ s)

module _ {F : Type 0} ⦃f : Float F⦄ where
  gas_exceeded-Steps :
      (now : ℕ) (s : Store F) (rule : AlarmRule) (facility : ℕ) (device : Device)
      (xs : List (Exceeded F)) (o : Option (AlarmEvent F))
      → Finds (λ e. is_open e.event_status) s.events o
      → Steps s (gas_exceeded now s rule facility device xs o)
  unfolding gas_exceeded
  gas_exceeded-Steps now s rule facility device [] none found = stop
  gas_exceeded-Steps now s rule facility device [] (some e) found =
      one (closes now _ e found.0 found.1)
  gas_exceeded-Steps now s rule facility device (x ∷ xs) (some e) found =
      one (refreshes _ _ _ _ e found.0 found.1)
  gas_exceeded-Steps now s rule facility device (x ∷ xs) none found =
      one (opens now rule facility _ _ _ _ _ _ _)

  pub check_gas_thresholds-Steps :
      (policies : List (ThresholdPolicy F)) (now : ℕ) (s : Store F) (device : Device)
      (r : GasReading F)
      → Steps s (check_gas_thresholds policies now s device r)
  unfolding check_gas_thresholds
  check_gas_thresholds-Steps policies now s device r = when-Steps device.facility (λ facility.
      if-Steps (r.quality_flag =? "ok")
        (when-Steps (active_rule RuleType.threshold s.rules) (λ rule.
          gas_exceeded-Steps now s rule facility device (check_threshold_exceeded policies r "알림") _
            (latest-Open_all rule.id device.id s)))
        stop)

  raise_anomalies-Steps :
      (now : ℕ) (s : Store F) (rule : AlarmRule) (facility : ℕ) (device : Device) (r : ZResult F)
      (rs : List (ZResult F)) (o : Option (AlarmEvent F))
      → Open s o
      → Steps s (raise_anomalies now s rule facility device r rs o)
  unfolding raise_anomalies
  raise_anomalies-Steps now s rule facility device r rs (some e) found =
      one (refreshes _ _ _ _ e found.0 found.1)
  raise_anomalies-Steps now s rule facility device r rs none found =
      one (opens now rule facility _ _ _ _ _ _ _)

  with_anomalies-Steps :
      (now : ℕ) (s : Store F) (facility : ℕ) (device : Device) (rs : List (ZResult F))
      → Steps s (with_anomalies now s facility device rs)
  unfolding with_anomalies
  with_anomalies-Steps now s facility device [] = stop
  with_anomalies-Steps now s facility device (r ∷ rs) = when-Steps _ (λ rule.
      raise_anomalies-Steps now s rule facility device r rs _ (latest-Open rule.id device.id _ s))

  pub trigger_anomaly_alarms-Steps :
      (now : ℕ) (s : Store F) (device : Device) (rs : List (ZResult F))
      → Steps s (trigger_anomaly_alarms now s device rs)
  unfolding trigger_anomaly_alarms
  trigger_anomaly_alarms-Steps now s device rs =
      when-Steps device.facility (λ facility. with_anomalies-Steps now s facility device _)

  cp_event-Steps :
      (now : ℕ) (s : Store F) (rule : AlarmRule) (facility : ℕ) (device : Device) (r : CpResult F)
      (v : CpEvent) (o : Option (AlarmEvent F))
      → Open s o
      → Steps s (cp_event now s rule facility device r v o)
  unfolding cp_event
  cp_event-Steps now s rule facility device r CpEvent.change_point (some e) found =
      one (refreshes _ _ _ _ e found.0 found.1)
  cp_event-Steps now s rule facility device r CpEvent.change_point none found =
      one (opens now rule facility _ _ _ _ _ _ _)
  cp_event-Steps now s rule facility device r CpEvent.back_to_stable (some e) found =
      one (closes now _ e found.0 found.1)
  cp_event-Steps now s rule facility device r CpEvent.back_to_stable none found = stop

  cp_loop-Steps :
      (now : ℕ) (rule : AlarmRule) (facility : ℕ) (device : Device) (s : Store F)
      (rs : List (CpResult F))
      → Steps s (cp_loop now rule facility device s rs)
  unfolding cp_loop cp_one
  cp_loop-Steps now rule facility device s [] = stop
  cp_loop-Steps now rule facility device s (r ∷ rs) =
      Steps-trans
        (when-Steps r.event (λ v.
          cp_event-Steps now s rule facility device r v _ (latest-Open rule.id device.id _ s)))
        (cp_loop-Steps now rule facility device (cp_one now rule facility device s r) rs)

  pub trigger_changepoint_alarms-Steps :
      (now : ℕ) (s : Store F) (device : Device) (rs : List (CpResult F))
      → Steps s (trigger_changepoint_alarms now s device rs)
  unfolding trigger_changepoint_alarms
  trigger_changepoint_alarms-Steps now s device rs =
      when-Steps device.facility
        (λ facility. when-Steps _ (λ rule. cp_loop-Steps now rule facility device s rs))

  forecast_event-Steps :
      (now : ℕ) (s : Store F) (rule : AlarmRule) (facility : ℕ) (device : Device)
      (channel : Option DeviceChannel) (r : ForecastPolicyResult) (a : Alarm)
      (o : Option (AlarmEvent F))
      → Open s o
      → Steps s (forecast_event now s rule facility device channel r a o)
  unfolding forecast_event
  forecast_event-Steps now s rule facility device channel r Alarm.raise (some e) found =
      one (refreshes _ _ _ _ e found.0 found.1)
  forecast_event-Steps now s rule facility device channel r Alarm.raise none found =
      one (opens now rule facility _ _ _ _ _ _ _)
  forecast_event-Steps now s rule facility device channel r Alarm.lower (some e) found =
      one (closes now _ e found.0 found.1)
  forecast_event-Steps now s rule facility device channel r Alarm.lower none found = stop
  forecast_event-Steps now s rule facility device channel r Alarm.hold o found = stop

  forecast_loop-Steps :
      (now : ℕ) (rule : AlarmRule) (facility : ℕ) (device : Device) (channel : Option DeviceChannel)
      (s : Store F) (rs : List ForecastPolicyResult)
      → Steps s (forecast_loop now rule facility device channel s rs)
  unfolding forecast_loop forecast_one
  forecast_loop-Steps now rule facility device channel s [] = stop
  forecast_loop-Steps now rule facility device channel s (r ∷ rs) =
      Steps-trans
        (forecast_event-Steps now s rule facility device channel r _ _
          (latest-Open rule.id device.id _ s))
        (forecast_loop-Steps now rule facility device channel
          (forecast_one now rule facility device channel s r) rs)

  pub trigger_forecast_alarms-Steps :
      (now : ℕ) (s : Store F) (device : Device) (rs : List ForecastPolicyResult)
      (channel : Option DeviceChannel)
      → Steps s (trigger_forecast_alarms now s device rs channel)
  unfolding trigger_forecast_alarms
  trigger_forecast_alarms-Steps now s device rs channel =
      when-Steps device.facility (λ facility.
        when-Steps _ (λ rule. forecast_loop-Steps now rule facility device channel s rs))

  pub check_power_thresholds-Steps :
      (now : ℕ) (s : Store F) (device : Device) (channel : DeviceChannel) (power_w : F)
      → Steps s (check_power_thresholds now s device channel power_w)
  unfolding check_power_thresholds power_event
  check_power_thresholds-Steps now s device channel power_w =
      when-Steps device.facility (λ facility.
        if-Steps ((power_w <= lit 0) || (◌<=◌ {F = F} (rated_power channel) (lit 0))) stop (
          when-Steps (load_severity (load_rate channel power_w)) (λ severity.
            when-Steps (active_rule RuleType.power s.rules) (λ rule.
              if-Steps (any (recent_open now rule.id device.id channel.id) s.events) stop
                (one (opens now rule facility _ _ _ _ _ _ _))))))
