-- ===== src/Alerts/Commands.antt =====
-- alerts/services.py and alerts/views.py: the calls that change the tables, in any order.
pub mod Runs
use icmp.Base.{ℕ, String, Bool, Option, none, some, List, [], ◌∷◌, ◌==◌, if◌then◌else◌}
use icmp.Float.{Float}
use icmp.Engine.Forecast.Data.{ForecastPolicyResult}
use icmp.Monitoring.{Device, DeviceChannel, GasReading, ThresholdPolicy}
use icmp.Alerts.Types.{AlarmEvent, Store}
use icmp.Alerts.Tables.{when_some}
use icmp.Alerts.Gas.{
  check_gas_thresholds, ZResult, trigger_anomaly_alarms, CpResult, trigger_changepoint_alarms,
}
use icmp.Alerts.Isolation.{IfResult, trigger_if_anomaly_alarms, trigger_if_anomaly_alarms_power}
use icmp.Alerts.Prediction.{trigger_forecast_alarms}
use icmp.Alerts.Power.{check_power_thresholds}
use icmp.Alerts.Missing.{check_missing_devices}
use icmp.Alerts.Status.{StatusResult, ok, not_allowed, change_event_status}

module _ {F : Type 0} where
  -- get_object_or_404(AlarmEvent, pk=pk)
  unfoldable pub event_of : ℕ → List (AlarmEvent F) → Option (AlarmEvent F)
  event_of pk [] = none
  event_of pk (e ∷ es) = let rest = event_of pk es in if e.id == pk then some e else rest

  -- The tables after a change of status; a refusal leaves them as they are.
  abbrev pub tables : Store F → StatusResult F → Store F
  tables s (ok t e) = t
  tables s (not_allowed old new) = s

  -- change_event_status_view: an unknown key is a 404, and changes nothing.
  unfoldable pub change_event_status_view : ℕ → Store F → ℕ → String → Option ℕ → String → Store F
  unfolding event_of change_event_status
  change_event_status_view now s pk new_status user note =
      when_some (event_of pk s.events) s
        (λ e. tables s (change_event_status now s e new_status user note))

-- A call, with the clock's reading.
pub data Command (F : Type 0) : Type 0 where
  gas_thresholds : ℕ → List (ThresholdPolicy F) → Device → GasReading F → Command F
  anomalies : ℕ → Device → List (ZResult F) → Command F
  changepoints : ℕ → Device → List (CpResult F) → Command F
  isolation : ℕ → Device → Option (IfResult F) → Command F
  power_isolation : ℕ → Device → DeviceChannel → Option (IfResult F) → Command F
  forecasts : ℕ → Device → List ForecastPolicyResult → Option DeviceChannel → Command F
  power_thresholds : ℕ → Device → DeviceChannel → F → Command F
  missing_devices : ℕ → List Device → Command F
  status_change : ℕ → ℕ → String → Option ℕ → String → Command F

module _ {F : Type 0} ⦃f : Float F⦄ where
  unfoldable pub handle : Store F → Command F → Store F
  unfolding check_gas_thresholds trigger_anomaly_alarms trigger_changepoint_alarms
      trigger_if_anomaly_alarms trigger_if_anomaly_alarms_power trigger_forecast_alarms
      check_power_thresholds check_missing_devices change_event_status_view
  handle s (gas_thresholds now policies device r) = check_gas_thresholds policies now s device r
  handle s (anomalies now device rs) = trigger_anomaly_alarms now s device rs
  handle s (changepoints now device rs) = trigger_changepoint_alarms now s device rs
  handle s (isolation now device r) = trigger_if_anomaly_alarms now s device r
  handle s (power_isolation now device channel r) =
      trigger_if_anomaly_alarms_power now s device channel r
  handle s (forecasts now device rs channel) = trigger_forecast_alarms now s device rs channel
  handle s (power_thresholds now device channel power_w) =
      check_power_thresholds now s device channel power_w
  handle s (missing_devices now devices) = check_missing_devices now devices s
  handle s (status_change now pk new_status user note) =
      change_event_status_view now s pk new_status user note

  unfoldable pub run : Store F → List (Command F) → Store F
  unfolding handle
  run s [] = s
  run s (c ∷ cs) = run (handle s c) cs
