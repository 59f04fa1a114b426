-- ===== src/Ingest/Stored.antt =====
-- monitoring/services.py: the readings and the queued forecasts after any ingests.
use icmp.Base.{
  ℕ, String, ◌≡◌, any, ◌&&◌, Bool, Option, none, some, List, [], ◌∷◌, ◌++◌, map, ◌==◌,
  if◌then◌else◌, string_eq,
}
use icmp.Float.{Float}
use icmp.Monitoring.{Device, GasReading}
use icmp.Ingest.Data.{Payload, World, device_of, is_running, or_now}
use icmp.Ingest.Gas.{gas_reading}
use icmp.Ingest.Arrivals.{Arrival, gas_arrival, power_arrival}

-- The id of a device that ingests take readings of.
abbrev running_id : Option Device → Option ℕ
running_id none = none
running_id (some d) = if is_running d then some d.id else none

-- The uids and ids that are taken, of a table of devices.
abbrev pub taken : String → List Device → Option ℕ
unfolding device_of
taken uid devices = running_id (device_of uid devices)

module _ {F : Type 0} where
  abbrev pub readings_of : List (GasReading F × (String × Payload F)) → List (GasReading F)
  readings_of xs = map (λ x. x.0) xs

  abbrev pub forecasts_of : List (GasReading F × (String × Payload F)) → List (String × Payload F)
  forecasts_of xs = map (λ x. x.1) xs

  -- A reading of a device at a time is listed.
  abbrev pub has_reading : ℕ → ℕ → List (GasReading F) → Bool
  has_reading device time = any (λ q. (q.device == device) && (q.measured_at == time))

  -- The reading and the forecast that one payload leaves, after other readings.
  abbrev pub from_payload :
      ℕ
      → String
      → Payload F
      → List (GasReading F)
      → Option ℕ
      → List (GasReading F × (String × Payload F))
  from_payload now uid p stored none = []
  from_payload now uid p stored (some id) =
      if has_reading id (or_now now p.measured_at) stored
      then []
      else (gas_reading now id p, (uid, p)) ∷ []

  -- The readings of gas that are to be stored, with the forecasts that are to be queued, for a table
  -- of devices and the readings so far.
  abbrev pub expected :
      List Device
      → List (GasReading F)
      → List (Arrival F)
      → List (GasReading F × (String × Payload F))
  expected devices stored [] = []
  expected devices stored (gas_arrival now uid p ∷ rest) =
      let new = from_payload now uid p stored (taken uid devices) in
      new ++ expected devices (stored ++ readings_of new) rest
  expected devices stored (power_arrival now uid code p ∷ rest) = expected devices stored rest

  -- A world with more readings and forecasts, and devices that are taken as before.
  record Extends (w v : World F) (xs : List (GasReading F × (String × Payload F))) : Type 0 where
    readings : v.gas_readings ≡ w.gas_readings ++ readings_of xs
    forecasts : v.gas_forecasts ≡ w.gas_forecasts ++ forecasts_of xs
    devices : (uid : String) → taken uid v.devices ≡ taken uid w.devices
