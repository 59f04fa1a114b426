-- ===== src/Monitoring/Types.antt =====
-- monitoring/models.py: the columns that the services read.
use icmp.Base.{ℕ, String, Bool, Option, none, List, [], ◌∷◌, if◌then◌else◌, string_eq, ◌=?◌}

-- An instant is a number of microseconds; `facility` is the id behind the nullable foreign key.
pub record Device : Type 0 where
  pub id : ℕ
  pub device_uid : String
  pub facility : Option ℕ
  pub is_active : Bool
  pub status : String
  pub last_seen_at : Option ℕ

pub record DeviceChannel : Type 0 where
  pub id : ℕ
  pub device : ℕ
  pub channel_code : String
  pub channel_name : String
  pub is_active : Bool
  pub status : String
  pub rated_power_w : ℕ

pub record GasReading (F : Type 0) : Type 0 where
  pub device : ℕ
  pub co : Option F
  pub h2s : Option F
  pub co2 : Option F
  pub o2 : Option F
  pub no2 : Option F
  pub so2 : Option F
  pub o3 : Option F
  pub nh3 : Option F
  pub voc : Option F
  pub measured_at : ℕ
  pub quality_flag : String

pub record PowerReading (F : Type 0) : Type 0 where
  pub channel : DeviceChannel
  pub current_a : F
  pub voltage_v : F
  pub power_w : F
  pub measured_at : ℕ
  pub quality_flag : String

pub record ThresholdPolicy (F : Type 0) : Type 0 where
  pub metric_code : String
  pub category : String
  pub scope : String
  pub is_active : Bool
  pub warning_max : Option F
  pub danger_max : Option F

-- GAS_FIELDS of monitoring/constants.py
abbrev pub gas_fields : List String
gas_fields = "co" ∷ "h2s" ∷ "co2" ∷ "o2" ∷ "no2" ∷ "so2" ∷ "o3" ∷ "nh3" ∷ "voc" ∷ []

-- getattr(reading, gas, None), for the names of gases; a policy's code that names no gas is `none`.
unfoldable pub read_gas : {F : Type 0} → GasReading F → String → Option F
read_gas r gas =
    if gas =? "co"
    then r.co
    else if gas =? "h2s"
    then r.h2s
    else if gas =? "co2"
    then r.co2
    else if gas =? "o2"
    then r.o2
    else if gas =? "no2"
    then r.no2
    else if gas =? "so2"
    then r.so2
    else if gas =? "o3"
    then r.o3
    else if gas =? "nh3"
    then r.nh3
    else if gas =? "voc"
    then r.voc
    else none

-- STALE_THRESHOLD = timedelta(minutes=2), in microseconds
abbrev pub stale_threshold : ℕ
stale_threshold = 120_000_000
