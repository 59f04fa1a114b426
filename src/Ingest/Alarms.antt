-- ===== src/Ingest/Alarms.antt =====
-- monitoring/services.py: the alarms after any ingests.
use icmp.Base.{ℕ, String, Bool, true, false, Option, none, some, List, [], ◌∷◌, if◌then◌else◌}
use icmp.Float.{Float}
use icmp.Monitoring.{Device, DeviceChannel, GasReading, PowerReading}
use icmp.Monitoring.Anomaly.Zscore.{AnomalyResult, analyze}
use icmp.Monitoring.Anomaly.Changepoint.{CpResult, detect}
use icmp.Alerts.{Store}
use icmp.Alerts.Commands.{
  gas_thresholds, anomalies, changepoints, isolation, power_isolation, power_thresholds, handle,
  run,
}
use icmp.Alerts.Commands.Runs.{run-Steps}
use icmp.Alerts.Steps.{Steps, stop, Steps-trans}
use icmp.Alerts.Steps.Soundness.{IsSound, Steps-IsSound}
use icmp.Alerts.Steps.Growth.{Grows, Steps-Grows}
use icmp.Ingest.Data.{
  Payload, World, Models, device_of, is_running, seen, after, Ended, returned, integrity_error,
}
use icmp.Ingest.Gas.{
  z_results, cp_results, ok_rows, gas_alarms, gas_reading, is_stored, store_gas, judge_gas,
  ingest_gas, gas_from, process_gas_ingest,
}
use icmp.Ingest.Power.{
  channel_of, is_channel_running, power_alarms, power_reading, store_power, ingest_power,
  power_from_channel, power_from, process_power_ingest,
}
use icmp.Ingest.Arrivals.{Arrival, gas_arrival, power_arrival, ingest, ingest_all}

module _ {F : Type 0} ⦃f : Float F⦄ (models : Models F) where
  if-Steps :
      (w : World F) (b : Bool) (x y : Ended F)
      → Steps w.alarms (after w x).alarms
      → Steps w.alarms (after w y).alarms
      → Steps w.alarms (after w (if b then x else y)).alarms
  if-Steps w true x y h k = h
  if-Steps w false x y h k = k

  gas_alarms-Steps :
      (now : ℕ) (device : Device) (r : GasReading F) (zs : List (AnomalyResult F))
      (cs : List (CpResult F)) (s : Store F)
      → Steps s (gas_alarms models now device r zs cs s)
  unfolding gas_alarms run handle
  gas_alarms-Steps now device r zs cs s = run-Steps s (
      gas_thresholds now models.policies device r
      ∷ anomalies now device (z_results zs)
      ∷ changepoints now device (cp_results cs)
      ∷ isolation now device (models.predict_gas_anomaly r)
      ∷ [])

  power_alarms-Steps :
      (now : ℕ) (device : Device) (channel : DeviceChannel) (r : PowerReading F) (s : Store F)
      → Steps s (power_alarms models now device channel r s)
  unfolding power_alarms run handle
  power_alarms-Steps now device channel r s = run-Steps s (
      power_thresholds now device channel r.power_w
      ∷ power_isolation now device channel (models.predict_power_anomaly r)
      ∷ [])

  judge_gas-Steps :
      (now : ℕ) (uid : String) (device : Device) (r : GasReading F) (p : Payload F) (w : World F)
      → Steps w.alarms (judge_gas models now uid device r p w).alarms
  unfolding judge_gas
  judge_gas-Steps now uid device r p w =
      let rows = ok_rows w.devices w.gas_readings in
      let (zs, buffers) = analyze models.stats rows models.policies device.device_uid r w.buffers in
      let (cs, buffers', states) = detect models.stats rows device.device_uid r buffers w.states in
      gas_alarms-Steps now device r zs cs w.alarms

  ingest_gas-Steps :
      (now : ℕ) (uid : String) (d : Device) (p : Payload F) (w : World F)
      → Steps w.alarms (after w (ingest_gas models now uid d p w)).alarms
  unfolding ingest_gas store_gas
  ingest_gas-Steps now uid d p w =
      let r = gas_reading now d.id p in
      let v = store_gas now d r w in
      if-Steps w (is_stored r w.gas_readings) integrity_error
        (returned (judge_gas models now uid (seen now d) r p v)) stop
        (judge_gas-Steps now uid (seen now d) r p v)

  gas_from-Steps :
      (now : ℕ) (uid : String) (p : Payload F) (w : World F) (o : Option Device)
      → Steps w.alarms (after w (gas_from models now uid p w o)).alarms
  unfolding gas_from
  gas_from-Steps now uid p w none = stop
  gas_from-Steps now uid p w (some d) =
      if-Steps w (is_running d) (ingest_gas models now uid d p w) (returned w)
        (ingest_gas-Steps now uid d p w) stop

  store_power-Steps :
      (now : ℕ) (key : String × String) (d : Device) (c : DeviceChannel) (p : Payload F)
      (w : World F) (o : Option (PowerReading F))
      → Steps w.alarms (after w (store_power models now key d c p w o)).alarms
  unfolding store_power
  store_power-Steps now key d c p w none = stop
  store_power-Steps now key d c p w (some r) = power_alarms-Steps now (seen now d) c r w.alarms

  power_channel-Steps :
      (now : ℕ) (key : String × String) (d : Device) (p : Payload F) (w : World F)
      (o : Option DeviceChannel)
      → Steps w.alarms (after w (power_from_channel models now key d p w o)).alarms
  unfolding power_from_channel ingest_power
  power_channel-Steps now key d p w none = stop
  power_channel-Steps now key d p w (some c) =
      if-Steps w (is_channel_running c) (ingest_power models now key d c p w) (returned w)
        (store_power-Steps now key d c p w (power_reading now c p)) stop

  power_from-Steps :
      (now : ℕ) (key : String × String) (p : Payload F) (w : World F) (o : Option Device)
      → Steps w.alarms (after w (power_from models now key p w o)).alarms
  unfolding power_from
  power_from-Steps now key p w none = stop
  power_from-Steps now key p w (some d) =
      if-Steps w (is_running d)
        (power_from_channel models now key d p w (channel_of d.id key.1 w.channels)) (returned w)
        (power_channel-Steps now key d p w (channel_of d.id key.1 w.channels)) stop

  ingest-Steps : (w : World F) (a : Arrival F) → Steps w.alarms (ingest models w a).alarms
  unfolding ingest process_gas_ingest process_power_ingest
  ingest-Steps w (gas_arrival now uid p) = gas_from-Steps now uid p w (device_of uid w.devices)
  ingest-Steps w (power_arrival now uid code p) =
      power_from-Steps now (uid, code) p w (device_of uid w.devices)

  ingest_all-Steps :
      (w : World F) (arrivals : List (Arrival F))
      → Steps w.alarms (ingest_all models w arrivals).alarms
  unfolding ingest_all
  ingest_all-Steps w [] = stop
  ingest_all-Steps w (a ∷ rest) =
      Steps-trans (ingest-Steps w a) (ingest_all-Steps (ingest models w a) rest)

  -- Whatever payloads arrive, in any order, from any devices, repeated ones and ones with null values
  -- too, which the database refuses, and whatever the detectors and the
  -- models of the engine answer: sound tables of alarms stay sound, no event and no history entry is
  -- lost or reordered, and the events that the ingests create are exactly those handed to the
  -- notifications, in order.
  pub ingest_all-IsSound :
      (w : World F) (arrivals : List (Arrival F))
      → IsSound w.alarms
      → IsSound (ingest_all models w arrivals).alarms
        × Grows w.alarms (ingest_all models w arrivals).alarms
  ingest_all-IsSound w arrivals sound =
      (Steps-IsSound sound (ingest_all-Steps w arrivals), Steps-Grows (ingest_all-Steps w arrivals))
