-- ===== src/Examples/Arrivals.antt =====
-- Payloads of a device in use, of one that is not, and of none.
use icmp.Base.{ℕ, String, true, some, none, List, [], ◌∷◌}
use icmp.Float.Fixed.{Fixed, fixed_float, whole}
use icmp.Monitoring.{Device, DeviceChannel}
use icmp.Alerts.{RuleType}
use icmp.Alerts.Steps.Soundness.{IsSound}
use icmp.Alerts.Steps.Growth.{Grows}
use icmp.Ingest.Data.{Payload, World, Models}
use icmp.Ingest.Arrivals.{Arrival, gas_arrival, power_arrival, ingest_all}
use icmp.Ingest.Alarms.{ingest_all-IsSound}

abbrev device : ℕ → String → String → Device
device id uid status = record {
  id = id;
  device_uid = uid;
  facility = some 4;
  is_active = true;
  status = status;
  last_seen_at = none;
}

abbrev panel : DeviceChannel
panel = record {
  id = 3;
  device = 1;
  channel_code = "CH1";
  channel_name = "";
  is_active = true;
  status = "active";
  rated_power_w = 500;
}

abbrev world : World Fixed
world = record {
  devices = device 1 "GAS-001" "active" ∷ device 2 "GAS-002" "inactive" ∷ [];
  channels = panel ∷ [];
  gas_readings = [];
  power_readings = [];
  buffers = [];
  states = [];
  alarms = record {
    rules =
        record {
          id = 9;
          rule_type = RuleType.threshold;
          is_active = true;
          missing_timeout_seconds = none;
        }
        ∷ record {
          id = 8;
          rule_type = RuleType.power;
          is_active = true;
          missing_timeout_seconds = none;
        }
        ∷ [];
    events = [];
    histories = [];
    next_id = 1;
    queued = [];
  };
  sensors = [];
  fences = record { fences = []; next_id = 1; broadcasts = [] };
  gas_forecasts = [];
  power_forecasts = [];
}

abbrev models : Models Fixed
models = record {
  stats = record { mean = λ xs. whole 10; std = λ xs. whole 2 };
  policies = [];
  predict_gas_anomaly = λ r. none;
  predict_power_anomaly = λ r. none;
}

abbrev high_co : Payload Fixed
high_co = record { values = ("co", some (whole 300)) ∷ []; measured_at = some 10 }

abbrev load : Payload Fixed
load = record { values = ("power_w", some (whole 490)) ∷ []; measured_at = none }

abbrev arrivals : List (Arrival Fixed)
arrivals =
    gas_arrival 11 "GAS-001" high_co
    ∷ gas_arrival 11 "GAS-001" high_co
    ∷ gas_arrival 12 "GAS-002" high_co
    ∷ power_arrival 13 "GAS-001" "CH1" load
    ∷ gas_arrival 14 "GAS-003" high_co
    ∷ []

sound : IsSound world.alarms
sound = record {
  ids_below = tt;
  ids_distinct = tt;
  queued_below = tt;
  queued_distinct = tt;
  times = tt;
}

ingest_all-IsSound_example :
    IsSound (ingest_all models world arrivals).alarms
    × Grows world.alarms (ingest_all models world arrivals).alarms
ingest_all-IsSound_example = ingest_all-IsSound models world arrivals sound
