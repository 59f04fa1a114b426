-- ===== src/Ingest/Gas.antt =====
-- monitoring/services.py: process_gas_ingest.
use icmp.Base.{
  ℕ, String, Bool, true, false, ◌&&◌, Option, none, some, List, [], ◌∷◌, ◌++◌, map, length, select,
  any, leb, ◌==◌, if◌then◌else◌, Dict, lookup, string_eq, ◌=?◌,
}
use icmp.Float.{Float}
use icmp.Monitoring.{Device, GasReading, gas_fields}
use icmp.Monitoring.Anomaly.Buffers.{Rows, push}
use icmp.Monitoring.Anomaly.Zscore as Zscore
use icmp.Monitoring.Anomaly.Zscore.{AnomalyResult, FinalStatus, analyze}
use icmp.Monitoring.Anomaly.Changepoint as Changepoint
use icmp.Monitoring.Anomaly.Changepoint.{States, detect}
use icmp.Alerts.{Store}
use icmp.Alerts.Gas as GasAlarms
use icmp.Alerts.Gas.{
  ZResult, check_gas_thresholds, trigger_anomaly_alarms, trigger_changepoint_alarms,
}
use icmp.Alerts.Isolation.{trigger_if_anomaly_alarms}
use icmp.Facilities.Autofences.{FenceStore, Outcome, done, update_geofence_from_gas}
use icmp.Ingest.Data.{
  Payload, World, Models, device_of, is_running, seen, update_last_seen, or_now, is_none, flat,
  Ended, returned, integrity_error,
}

-- The event names of the two sides of trigger_changepoint_alarms.
abbrev cp_event : Option Changepoint.CpEvent → Option GasAlarms.CpEvent
cp_event none = none
cp_event (some Changepoint.change_point) = some GasAlarms.change_point
cp_event (some Changepoint.back_to_stable) = some GasAlarms.back_to_stable

abbrev is_warning : FinalStatus → Bool
is_warning Zscore.anomaly_warning = true
is_warning _ = false

module _ {F : Type 0} where
  unfoldable pub gas_quality_flag : Dict String (Option F) → String
  gas_quality_flag values =
      let missing_count = length (select (λ g. is_none (flat (lookup g values))) gas_fields) in
      if missing_count == length gas_fields
      then "missing"
      else if leb 1 missing_count
      then "partial"
      else "ok"

  -- The row of GasReading.objects.create.
  unfoldable pub gas_reading : ℕ → ℕ → Payload F → GasReading F
  unfolding gas_quality_flag
  gas_reading now device p = record {
    device = device;
    co = flat (lookup "co" p.values);
    h2s = flat (lookup "h2s" p.values);
    co2 = flat (lookup "co2" p.values);
    o2 = flat (lookup "o2" p.values);
    no2 = flat (lookup "no2" p.values);
    so2 = flat (lookup "so2" p.values);
    o3 = flat (lookup "o3" p.values);
    nh3 = flat (lookup "nh3" p.values);
    voc = flat (lookup "voc" p.values);
    measured_at = or_now now p.measured_at;
    quality_flag = gas_quality_flag p.values;
  }

  by_time : GasReading F → List (GasReading F) → List (GasReading F)
  by_time r [] = r ∷ []
  by_time r (q ∷ qs) =
      let rest = by_time r qs in if leb r.measured_at q.measured_at then r ∷ q ∷ qs else q ∷ rest

  sorted : List (GasReading F) → List (GasReading F)
  unfolding by_time
  sorted [] = []
  sorted (r ∷ rs) = by_time r (sorted rs)

  -- The readings of quality `ok` of the devices of a uid, in the order of measured_at.
  unfoldable pub ok_rows : List Device → List (GasReading F) → Rows F
  unfolding sorted
  ok_rows devices readings uid = sorted (
      select
        (λ r.
          (r.quality_flag =? "ok")
          && any (λ d. (d.id == r.device) && (d.device_uid =? uid)) devices)
        readings)

  -- The keys of a result that trigger_changepoint_alarms reads.
  abbrev pub cp_results : List (Changepoint.CpResult F) → List (GasAlarms.CpResult F)
  cp_results = map (λ r. record {
    metric = r.metric;
    prev_mean = r.prev_mean;
    curr_mean = r.curr_mean;
    mean_shift_score = r.mean_shift_score;
    std_ratio = r.std_ratio;
    event = cp_event r.event;
  })

  -- The fences after an update; what it raises is logged.
  abbrev kept : FenceStore F → Outcome F → FenceStore F
  kept s (done t) = t
  kept s _ = s

module _ {F : Type 0} ⦃f : Float F⦄ where
  abbrev or_nan : Option F → F
  or_nan none = f.nan
  or_nan (some v) = v

  -- The keys of a result that trigger_anomaly_alarms reads; a result that it takes has a score.
  abbrev pub z_results : List (AnomalyResult F) → List (ZResult F)
  z_results = map (λ r. record {
    metric = r.metric;
    value = r.value;
    z_score = or_nan r.z_score;
    is_anomaly = is_warning r.final_status;
  })

  -- The tables and the buffers, once the reading is stored.
  unfoldable pub store_gas : ℕ → Device → GasReading F → World F → World F
  unfolding update_last_seen push
  store_gas now device r w = record w {
    gas_readings = w.gas_readings ++ (r ∷ []);
    devices = update_last_seen now device.id w.devices;
    buffers = push device.device_uid r w.buffers;
  }

  -- STEP B, D, E and F on the alarms, with the results of the detectors.
  unfoldable pub gas_alarms :
      Models F
      → ℕ
      → Device
      → GasReading F
      → List (AnomalyResult F)
      → List (Changepoint.CpResult F)
      → Store F
      → Store F
  unfolding check_gas_thresholds trigger_anomaly_alarms trigger_changepoint_alarms
      trigger_if_anomaly_alarms
  gas_alarms models now device r zs cs s =
      trigger_if_anomaly_alarms now
        (trigger_changepoint_alarms now
          (trigger_anomaly_alarms now (check_gas_thresholds models.policies now s device r) device
            (z_results zs))
          device (cp_results cs))
        device (models.predict_gas_anomaly r)

  -- STEP B to STEP G and the geofence, of a reading that is stored.
  unfoldable pub judge_gas :
      Models F → ℕ → String → Device → GasReading F → Payload F → World F → World F
  unfolding analyze detect ok_rows gas_alarms update_geofence_from_gas
  judge_gas models now uid device r p w =
      let rows = ok_rows w.devices w.gas_readings in
      let (zs, buffers) = analyze models.stats rows models.policies device.device_uid r w.buffers in
      let (cs, buffers', states) = detect models.stats rows device.device_uid r buffers w.states in
      record w {
        buffers = buffers';
        states = states;
        alarms = gas_alarms models now device r zs cs w.alarms;
        gas_forecasts = w.gas_forecasts ++ ((uid, p) ∷ []);
        fences = kept w.fences (update_geofence_from_gas now models.policies w.sensors r w.fences);
      }

  -- unique_together of the table, (device, measured_at)
  abbrev pub is_stored : GasReading F → List (GasReading F) → Bool
  is_stored r = any (λ q. (q.device == r.device) && (q.measured_at == r.measured_at))

  unfoldable pub ingest_gas : Models F → ℕ → String → Device → Payload F → World F → Ended F
  unfolding gas_reading store_gas judge_gas
  ingest_gas models now uid device p w =
      let r = gas_reading now device.id p in
      if is_stored r w.gas_readings
      then integrity_error
      else returned (judge_gas models now uid (seen now device) r p (store_gas now device r w))

  unfoldable pub gas_from : Models F → ℕ → String → Payload F → World F → Option Device → Ended F
  unfolding ingest_gas
  gas_from models now uid p w none = returned w
  gas_from models now uid p w (some d) =
      let next = ingest_gas models now uid d p w in if is_running d then next else returned w

  -- process_gas_ingest, the broadcast of the sensor left out
  unfoldable pub process_gas_ingest : Models F → ℕ → String → Payload F → World F → Ended F
  unfolding gas_from device_of
  process_gas_ingest models now uid p w = gas_from models now uid p w (device_of uid w.devices)
