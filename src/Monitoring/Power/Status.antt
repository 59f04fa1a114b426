-- ===== src/Monitoring/Power/Status.antt =====
-- monitoring/services.py: the three places that read the -1 of a lost channel, compared.
use icmp.Base.{ℕ, String, ◌≡◌, false, some, arith, ◌↔◌, string_eq}
use icmp.Float.{Float}
use icmp.Monitoring.Types.{PowerReading, ThresholdPolicy}
use icmp.Monitoring.Power.{
  ChannelStatus, comm_error, error, check_channel_status, power_quality_flag,
  calc_power_channel_level, is_stale,
}
use mathlib.Core.List.{List}

-- The flag that goes with each status.
abbrev pub flag_of : ChannelStatus → String
flag_of ChannelStatus.stale = ""
flag_of ChannelStatus.comm_error = "comm_err"
flag_of ChannelStatus.partial_error = "partial"
flag_of ChannelStatus.normal = "ok"

module _ {F : Type 0} ⦃f : Float F⦄ where
  -- For a reading that is not stale, the quality flag that the ingest stores is the one that goes with
  -- the status which the channel then shows, and the level is `error` exactly when that status is
  -- COMM_ERROR.
  pub status-flag :
      (now : ℕ) (policies : List (ThresholdPolicy F)) (r : PowerReading F)
      → is_stale now r.measured_at ≡ false
      → (power_quality_flag r.current_a r.voltage_v r.power_w
          ≡ flag_of (check_channel_status now (some r)))
        × ((calc_power_channel_level policies r ≡ error)
            ↔ (check_channel_status now (some r) ≡ comm_error))
  unfolding power_quality_flag check_channel_status calc_power_channel_level
  status-flag now policies r fresh = ground arith
