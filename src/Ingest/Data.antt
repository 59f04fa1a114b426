-- ===== src/Ingest/Data.antt =====
-- monitoring/services.py: what an ingest reads and writes, and the steps of both kinds of ingest.
use icmp.Base.{
  ℕ, String, Bool, true, false, ◌&&◌, Option, none, some, List, [], ◌∷◌, map, ◌==◌, if◌then◌else◌,
  Dict, string_eq, ◌=?◌,
}
use icmp.Monitoring.{Device, DeviceChannel, GasReading, PowerReading, ThresholdPolicy}
use icmp.Monitoring.Anomaly.{Stats}
use icmp.Monitoring.Anomaly.Buffers.{Buffers}
use icmp.Monitoring.Anomaly.Changepoint.{States}
use icmp.Alerts.{Store}
use icmp.Alerts.Isolation.{IfResult}
use icmp.Facilities.Types.{SensorLocation}
use icmp.Facilities.Autofences.{FenceStore}

-- The numbers of a payload by their names, `none` where the value is null, and the instant that Django
-- reads from its measured_at, `none` where the key is missing or the text is no time.
pub record Payload (F : Type 0) : Type 0 where
  pub values : Dict String (Option F)
  pub measured_at : Option ℕ

-- Everything that an ingest reads or writes. `gas_forecasts` and `power_forecasts` are the calls that
-- forecast_gas_task and forecast_power_task queued.
pub record World (F : Type 0) : Type 0 where
  pub devices : List Device
  pub channels : List DeviceChannel
  pub gas_readings : List (GasReading F)
  pub power_readings : List (PowerReading F)
  pub buffers : Buffers F
  pub states : States
  pub alarms : Store F
  pub sensors : List (SensorLocation F)
  pub fences : FenceStore F
  pub gas_forecasts : List (String × Payload F)
  pub power_forecasts : List ((String × String) × Payload F)

-- How an ingest ends: it returns, or the insert of the row raises an IntegrityError, before anything is
-- written.
pub data Ended (F : Type 0) : Type 0 where
  returned : World F → Ended F
  integrity_error : Ended F

-- The tables after an ingest.
abbrev pub after : {F : Type 0} → World F → Ended F → World F
after w (returned v) = v
after w integrity_error = w

-- The statistics of numpy, the policies, and the models of the engine.
pub record Models (F : Type 0) : Type 0 where
  pub stats : Stats F
  pub policies : List (ThresholdPolicy F)
  pub predict_gas_anomaly : GasReading F → Option (IfResult F)
  pub predict_power_anomaly : PowerReading F → Option (IfResult F)

-- Device.objects.filter(device_uid=device_uid).first()
unfoldable pub device_of : String → List Device → Option Device
device_of uid [] = none
device_of uid (d ∷ ds) = let rest = device_of uid ds in if d.device_uid =? uid then some d else rest

abbrev pub is_running : Device → Bool
is_running d = d.is_active && (d.status =? "active")

abbrev pub seen : ℕ → Device → Device
seen now d = record d { last_seen_at = some now }

-- update_last_seen: the row of that id
unfoldable pub update_last_seen : ℕ → ℕ → List Device → List Device
update_last_seen now id = map (λ d. if d.id == id then seen now d else d)

abbrev pub or_now : ℕ → Option ℕ → ℕ
or_now now none = now
or_now now (some t) = t

-- payload.get(key), of what the payload holds for the key
abbrev pub flat : {A : Type 0} → Option (Option A) → Option A
flat none = none
flat (some x) = x

abbrev pub is_none : {A : Type 0} → Option A → Bool
is_none none = true
is_none (some x) = false
