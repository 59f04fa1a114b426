-- ===== src/Examples/Readings.antt =====
-- A reading of the gases with carbon monoxide high and oxygen low, and one of a channel.
use icmp.Base.{
  ◌≡◌, refl, true, false, none, some, [], ◌∷◌, List, lookup, select, contains, string_eq,
}
use icmp.Float.Fixed.{Fixed, fixed_float, whole}
use icmp.Monitoring.{GasReading, PowerReading, ThresholdPolicy}
use icmp.Monitoring.Gas.{normal, calc_danger_level, check_threshold_exceeded}
use icmp.Monitoring.Gas.{applies, get_thresholds}
use icmp.Monitoring.Gas.Limits.{is_cons, limits_of, lookup-get_thresholds}
use icmp.Monitoring.Gas.Level.{worst, calc_danger_level-eq_worst}
use icmp.Monitoring.Power.{is_stale}

abbrev pub gases : GasReading Fixed
gases = record {
  device = 1;
  co = some (whole 60);
  h2s = none;
  co2 = some (whole 400);
  o2 = some (whole 15);
  no2 = none;
  so2 = none;
  o3 = none;
  nh3 = none;
  voc = none;
  measured_at = 10;
  quality_flag = "ok";
}

abbrev policies : List (ThresholdPolicy Fixed)
policies =
    record {
      metric_code = "co";
      category = "gas";
      scope = "실시간 관제";
      is_active = true;
      warning_max = some (whole 50);
      danger_max = some (whole 80);
    }
    ∷ []

calc_danger_level-eq_worst_example :
    calc_danger_level policies gases
    ≡ worst normal (check_threshold_exceeded policies gases "실시간 관제")
calc_danger_level-eq_worst_example = calc_danger_level-eq_worst policies gases

abbrev reading : PowerReading Fixed
reading = record {
  channel = record {
    id = 3;
    device = 2;
    channel_code = "CH1";
    channel_name = "";
    is_active = true;
    status = "normal";
    rated_power_w = 500;
  };
  current_a = whole 2;
  voltage_v = whole 0;
  power_w = whole 440;
  measured_at = 10;
  quality_flag = "ok";
}

fresh : is_stale 20 10 ≡ false
unfolding is_stale
fresh = refl

applied : is_cons (select (applies "실시간 관제") policies) ≡ true
unfolding contains
applied = refl

lookup-get_thresholds_example :
    lookup "co" (get_thresholds policies "실시간 관제")
    ≡ limits_of "co" none (select (applies "실시간 관제") policies)
lookup-get_thresholds_example = lookup-get_thresholds policies "실시간 관제" "co" applied
