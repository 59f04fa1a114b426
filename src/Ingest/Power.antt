-- ===== src/Ingest/Power.antt =====
-- monitoring/services.py: process_power_ingest.
use icmp.Base.{
  ℕ, String, Bool, ◌&&◌, Option, none, some, List, [], ◌∷◌, ◌++◌, ◌==◌, if◌then◌else◌, lookup,
  string_eq, ◌=?◌,
}
use icmp.Float.{Float, lit}
use icmp.Monitoring.{Device, DeviceChannel, PowerReading}
use icmp.Monitoring.Power.{power_quality_flag}
use icmp.Alerts.{Store}
use icmp.Alerts.Isolation.{trigger_if_anomaly_alarms_power}
use icmp.Alerts.Power.{check_power_thresholds}
use icmp.Ingest.Data.{
  Payload, World, Models, device_of, is_running, seen, update_last_seen, or_now, Ended, returned,
  integrity_error,
}

-- DeviceChannel.objects.filter(device, channel_code).first()
unfoldable pub channel_of : ℕ → String → List DeviceChannel → Option DeviceChannel
channel_of device code [] = none
channel_of device code (c ∷ cs) =
    let rest = channel_of device code cs in
    if (c.device == device) && (c.channel_code =? code) then some c else rest

abbrev pub is_channel_running : DeviceChannel → Bool
is_channel_running c = c.is_active && (c.status =? "active")

module _ {F : Type 0} ⦃f : Float F⦄ where
  -- payload.get(key, -1.0), of what the payload holds for the key
  abbrev or_minus_one : Option (Option F) → Option F
  or_minus_one none = some (f.neg (lit 1))
  or_minus_one (some v) = v

  -- The row of PowerReading.objects.create: the three columns refuse null.
  power_row :
      ℕ → DeviceChannel → Payload F → Option F → Option F → Option F → Option (PowerReading F)
  unfolding power_quality_flag
  power_row now channel p (some current_a) (some voltage_v) (some power_w) = some (record {
    channel = channel;
    current_a = current_a;
    voltage_v = voltage_v;
    power_w = power_w;
    measured_at = or_now now p.measured_at;
    quality_flag = power_quality_flag current_a voltage_v power_w;
  })
  power_row now channel p _ _ _ = none

  unfoldable pub power_reading : ℕ → DeviceChannel → Payload F → Option (PowerReading F)
  unfolding power_row
  power_reading now channel p =
      power_row now channel p (or_minus_one (lookup "current_a" p.values))
        (or_minus_one (lookup "voltage_v" p.values)) (or_minus_one (lookup "power_w" p.values))

  -- STEP B and STEP F on the alarms.
  unfoldable pub power_alarms :
      Models F → ℕ → Device → DeviceChannel → PowerReading F → Store F → Store F
  unfolding check_power_thresholds trigger_if_anomaly_alarms_power
  power_alarms models now device channel r s =
      trigger_if_anomaly_alarms_power now (check_power_thresholds now s device channel r.power_w)
        device channel (models.predict_power_anomaly r)

  unfoldable pub store_power :
      Models F
      → ℕ
      → String × String
      → Device
      → DeviceChannel
      → Payload F
      → World F
      → Option (PowerReading F)
      → Ended F
  unfolding power_alarms update_last_seen
  store_power models now key device channel p w none = integrity_error
  store_power models now key device channel p w (some r) = returned (record w {
    power_readings = w.power_readings ++ (r ∷ []);
    devices = update_last_seen now device.id w.devices;
    alarms = power_alarms models now (seen now device) channel r w.alarms;
    power_forecasts = w.power_forecasts ++ ((key, p) ∷ []);
  })

  unfoldable pub ingest_power :
      Models F → ℕ → String × String → Device → DeviceChannel → Payload F → World F → Ended F
  unfolding power_reading store_power
  ingest_power models now key device channel p w =
      store_power models now key device channel p w (power_reading now channel p)

  unfoldable pub power_from_channel :
      Models F → ℕ → String × String → Device → Payload F → World F → Option DeviceChannel → Ended F
  unfolding ingest_power
  power_from_channel models now key d p w none = returned w
  power_from_channel models now key d p w (some c) =
      let next = ingest_power models now key d c p w in
      if is_channel_running c then next else returned w

  unfoldable pub power_from :
      Models F → ℕ → String × String → Payload F → World F → Option Device → Ended F
  unfolding power_from_channel channel_of
  power_from models now key p w none = returned w
  power_from models now key p w (some d) =
      let next = power_from_channel models now key d p w (channel_of d.id key.1 w.channels) in
      if is_running d then next else returned w

  -- process_power_ingest
  unfoldable pub process_power_ingest :
      Models F → ℕ → String → String → Payload F → World F → Ended F
  unfolding power_from device_of
  process_power_ingest models now uid code p w =
      power_from models now (uid, code) p w (device_of uid w.devices)
