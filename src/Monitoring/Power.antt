-- ===== src/Monitoring/Power.antt =====
-- monitoring/services.py: the status of a power channel, its level, and the flag of a new reading.
pub mod Status
use icmp.Base.{
  ℕ, ◌+◌, ◌-◌, ◌*◌, String, Bool, true, false, ◌&&◌, ◌||◌, Option, none, some, List, [], ◌∷◌, leb,
  ltb, ◌==◌, if◌then◌else◌, string_eq, ◌=?◌, all, any, select,
}
use icmp.Float.{Float, lit, ◌<=◌, ◌>=◌}
use icmp.Monitoring.Types.{PowerReading, DeviceChannel, ThresholdPolicy, stale_threshold}

-- The strings of check_channel_status
pub data ChannelStatus : Type 0 where
  stale comm_error partial_error normal : ChannelStatus

-- The strings of calc_power_channel_level
pub data PowerLevel : Type 0 where
  error off danger warning normal : PowerLevel

-- PowerStatusReading: ON = 255, OFF = 0
pub record PowerStatusReading : Type 0 where
  pub channel : ℕ
  pub status_value : ℕ
  pub received_at : ℕ

-- is_stale: `now - ts > STALE_THRESHOLD`, where a timestamp ahead of the clock is not stale
unfoldable pub is_stale : ℕ → ℕ → Bool
is_stale now ts = ltb (ts + stale_threshold) now

-- .order_by("-received_at").first(), where an earlier row wins a tie
abbrev pub newer : Option PowerStatusReading → PowerStatusReading → PowerStatusReading
newer none s = s
newer (some b) s = if ltb b.received_at s.received_at then s else b

latest_status : ℕ → Option PowerStatusReading → List PowerStatusReading → Option PowerStatusReading
latest_status channel best [] = best
latest_status channel best (s ∷ rest) =
    latest_status channel (if s.channel == channel then some (newer best s) else best) rest

-- is_channel_on
unfoldable pub is_channel_on : ℕ → List PowerStatusReading → DeviceChannel → Bool
unfolding latest_status is_stale
is_channel_on now rows channel = elim (latest_status channel.id none rows) [
  | none ↦ false
  | some s ↦ if is_stale now s.received_at then false else s.status_value == 255
]

module _ {F : Type 0} ⦃f : Float F⦄ where
  -- v == -1
  abbrev pub is_minus_one : F → Bool
  is_minus_one v = f.eq v (f.neg (lit 1))

  abbrev pub is_zero : F → Bool
  is_zero v = f.eq v (lit 0)

  -- check_channel_status
  unfoldable pub check_channel_status : ℕ → Option (PowerReading F) → ChannelStatus
  unfolding is_stale
  check_channel_status now none = stale
  check_channel_status now (some r) =
      if is_stale now r.measured_at
      then stale
      else if all is_minus_one (r.current_a ∷ r.voltage_v ∷ r.power_w ∷ [])
      then comm_error
      else if any is_minus_one (r.current_a ∷ r.voltage_v ∷ r.power_w ∷ [])
      then partial_error
      else ChannelStatus.normal

  -- The quality flag of process_power_ingest
  unfoldable pub power_quality_flag : F → F → F → String
  power_quality_flag current_a voltage_v power_w =
      if all is_minus_one (current_a ∷ voltage_v ∷ power_w ∷ [])
      then "comm_err"
      else if any is_minus_one (current_a ∷ voltage_v ∷ power_w ∷ [])
      then "partial"
      else "ok"

  -- The active policy of the load rate: .filter(...).first()
  load_policy : List (ThresholdPolicy F) → Option (ThresholdPolicy F)
  load_policy [] = none
  load_policy (p ∷ ps) =
      if (p.category =? "TH_POWER") && ((p.metric_code =? "load_rate") && p.is_active)
      then some p
      else load_policy ps

  abbrev limit_or : F → Option F → F
  limit_or default none = default
  limit_or default (some v) = v

  -- float(channel.rated_power_w or 1000)
  abbrev pub rated_power : DeviceChannel → F
  rated_power c = lit (if c.rated_power_w == 0 then 1000 else c.rated_power_w)

  -- (power_w / rated_w) * 100
  unfoldable pub load_rate : DeviceChannel → F → F
  load_rate c power_w = f.mul (f.div power_w (rated_power c)) (lit 100)

  unfoldable pub warn_limit : List (ThresholdPolicy F) → F
  unfolding load_policy
  warn_limit policies = elim (load_policy policies) [
    | none ↦ f.decimal 500 1
    | some p ↦ limit_or (f.decimal 500 1) p.warning_max
  ]

  unfoldable pub danger_limit : List (ThresholdPolicy F) → F
  unfolding load_policy
  danger_limit policies = elim (load_policy policies) [
    | none ↦ f.decimal 750 1
    | some p ↦ limit_or (f.decimal 750 1) p.danger_max
  ]

  -- calc_power_channel_level; the three columns are not nullable.
  unfoldable pub calc_power_channel_level : List (ThresholdPolicy F) → PowerReading F → PowerLevel
  unfolding warn_limit danger_limit load_rate
  calc_power_channel_level policies r =
      if is_minus_one r.current_a && (is_minus_one r.voltage_v && is_minus_one r.power_w)
      then error
      else if is_zero r.current_a && (is_zero r.voltage_v && is_zero r.power_w)
      then off
      else if r.power_w <= lit 0
      then PowerLevel.normal
      else if load_rate r.channel r.power_w >= danger_limit policies
      then danger
      else if load_rate r.channel r.power_w >= warn_limit policies
      then warning
      else PowerLevel.normal
