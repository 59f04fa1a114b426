-- ===== src/Alerts/Commands/Runs.antt =====
-- alerts/services.py: the stores that any calls lead to.
use mathlib.Core.List.{Memᴰ}
use icmp.Base.{
  ℕ, String, refl, Bool, true, false, Option, none, some, List, [], ◌∷◌, ◌==◌, if◌then◌else◌,
}
use icmp.Float.{Float}
use icmp.Alerts.Types.{EventStatus, AlarmEvent, Store}
use icmp.Alerts.Tables.{when_some}
use icmp.Alerts.Status.{change_event_status, change_to, find_status, allowed_transitions}
use icmp.Alerts.Status.Transitions.{IsOther, find_status-IsOther}
use icmp.Alerts.Steps.{changes, restamp, Steps, stop, one, Steps-trans}
use icmp.Alerts.Steps.Handlers.{
  check_gas_thresholds-Steps, trigger_anomaly_alarms-Steps, trigger_changepoint_alarms-Steps,
  trigger_if_anomaly_alarms-Steps, trigger_if_anomaly_alarms_power-Steps,
  trigger_forecast_alarms-Steps, check_power_thresholds-Steps,
}
use icmp.Alerts.Steps.Timeouts.{check_missing_devices-Steps}
use icmp.Alerts.Steps.Soundness.{IsSound, Steps-IsSound}
use icmp.Alerts.Steps.Growth.{Grows, Steps-Grows}
use icmp.Alerts.Commands.{
  event_of, tables, change_event_status_view, Command, gas_thresholds, anomalies, changepoints,
  isolation, power_isolation, forecasts, power_thresholds, missing_devices, status_change, handle,
  run,
}

module _ {F : Type 0} where
  abbrev Listed : List (AlarmEvent F) → Option (AlarmEvent F) → Type 0
  Listed es none = Unit
  Listed es (some e) = Memᴰ e es

  event_of-Listed : (pk : ℕ) (es : List (AlarmEvent F)) → Listed es (event_of pk es)
  unfolding event_of
  event_of-Listed pk [] = tt
  event_of-Listed pk (e ∷ es) = step (e.id == pk) (event_of pk es) (event_of-Listed pk es)
    where
      longer : (o : Option (AlarmEvent F)) → Listed es o → Listed (e ∷ es) o
      longer none h = tt
      longer (some x) h = Memᴰ.tail h

      step :
          (b : Bool) (o : Option (AlarmEvent F))
          → Listed es o
          → Listed (e ∷ es) (if b then some e else o)
      step true o h = Memᴰ.head refl
      step false o h = longer o h

  change_to-Steps :
      (now : ℕ) (s : Store F) (e : AlarmEvent F) (w : String) (user : Option ℕ) (note : String)
      (o : Option EventStatus)
      → Memᴰ e s.events
      → IsOther e.event_status o
      → Steps s (tables s (change_to now s e w user note o))
  unfolding change_to restamp
  change_to-Steps now s e w user note none m h = stop
  change_to-Steps now s e w user note (some t) m h = one (changes now t user note e m h)

  view-Steps :
      (now : ℕ) (s : Store F) (w : String) (user : Option ℕ) (note : String)
      (o : Option (AlarmEvent F))
      → Listed s.events o
      → Steps s (when_some o s (λ e. tables s (change_event_status now s e w user note)))
  unfolding change_event_status
  view-Steps now s w user note none m = stop
  view-Steps now s w user note (some e) m =
      change_to-Steps now s e w user note (find_status w (allowed_transitions e.event_status)) m
        (find_status-IsOther w e.event_status)

  change_event_status_view-Steps :
      (now : ℕ) (s : Store F) (pk : ℕ) (w : String) (user : Option ℕ) (note : String)
      → Steps s (change_event_status_view now s pk w user note)
  unfolding change_event_status_view
  change_event_status_view-Steps now s pk w user note =
      view-Steps now s w user note (event_of pk s.events) (event_of-Listed pk s.events)

module _ {F : Type 0} ⦃f : Float F⦄ where
  handle-Steps : (s : Store F) (c : Command F) → Steps s (handle s c)
  unfolding handle
  handle-Steps s (gas_thresholds now policies device r) =
      check_gas_thresholds-Steps policies now s device r
  handle-Steps s (anomalies now device rs) = trigger_anomaly_alarms-Steps now s device rs
  handle-Steps s (changepoints now device rs) = trigger_changepoint_alarms-Steps now s device rs
  handle-Steps s (isolation now device r) = trigger_if_anomaly_alarms-Steps now s device r
  handle-Steps s (power_isolation now device channel r) =
      trigger_if_anomaly_alarms_power-Steps now s device channel r
  handle-Steps s (forecasts now device rs channel) =
      trigger_forecast_alarms-Steps now s device rs channel
  handle-Steps s (power_thresholds now device channel power_w) =
      check_power_thresholds-Steps now s device channel power_w
  handle-Steps s (missing_devices now devices) = check_missing_devices-Steps now devices s
  handle-Steps s (status_change now pk w user note) =
      change_event_status_view-Steps now s pk w user note

  -- Whatever calls are made, in any order, the tables change only by four kinds of steps: a new open
  -- event, an open event of the table seen again or closed with a history entry, and an event of the
  -- table moved by hand to a status other than its own with a history entry.
  pub run-Steps : (s : Store F) (cs : List (Command F)) → Steps s (run s cs)
  unfolding run
  run-Steps s [] = stop
  run-Steps s (c ∷ cs) = Steps-trans (handle-Steps s c) (run-Steps (handle s c) cs)

  -- From a sound store, whatever calls are made: ids stay distinct and below the next one, no event is
  -- notified twice, and each event has the times of its status, so an open one has no time of closing,
  -- a closed one has one, and an acknowledged one has a time of acknowledgement.
  pub run-IsSound : (s : Store F) (cs : List (Command F)) → IsSound s → IsSound (run s cs)
  run-IsSound s cs sound = Steps-IsSound sound (run-Steps s cs)

  -- Whatever calls are made, in any order: no event and no history entry is lost or reordered, and the
  -- events that were created in between are exactly those handed to the notifications, in order.
  pub run-Grows : (s : Store F) (cs : List (Command F)) → Grows s (run s cs)
  run-Grows s cs = Steps-Grows (run-Steps s cs)
