-- ===== src/Monitoring/Anomaly/Zscore.antt =====
-- monitoring/anomaly/zscore.py: each gas of a reading against the values before it.
pub mod Verdict
use icmp.Base.{
  ℕ, ◌+◌, String, Bool, true, false, Option, none, some, List, [], ◌∷◌, ◌++◌, length, leb, ltb,
  if◌then◌else◌, Dict, lookup, insert, string_eq, ◌=?◌,
}
use icmp.Float.{Float, lit, ◌<=◌, ◌>=◌, ◌<!◌}
use icmp.Monitoring.Types.{GasReading, ThresholdPolicy, gas_fields, read_gas}
use icmp.Monitoring.Gas.{GasLevel, Exceeded, check_threshold_exceeded}
use icmp.Monitoring.Anomaly.{Stats}
use icmp.Monitoring.Anomaly.Buffers.{Buffers, Rows, window_size, get, is_ready}

-- 'NORMAL', 'ANOMALY_WARNING', 'CRITICAL'
pub data FinalStatus : Type 0 where
  normal anomaly_warning critical : FinalStatus

pub data Direction : Type 0 where
  decrease increase : Direction

-- The dict of _make_result; the threshold status 'normal' is `none`.
pub record AnomalyResult (F : Type 0) : Type 0 where
  pub device_uid : String
  pub metric : String
  pub value : F
  pub mean : Option F
  pub std : Option F
  pub z_score : Option F
  pub direction : Option Direction
  pub threshold_status : Option GasLevel
  pub stat_status : FinalStatus
  pub final_status : FinalStatus
  pub measured_at : ℕ

-- MIN_SAMPLES
abbrev pub min_samples : ℕ
min_samples = 10

-- values[:-1], of more than one value
abbrev all_but_last : {A : Type 0} → List A → List A
all_but_last [] = []
all_but_last (x ∷ []) = []
all_but_last (x ∷ y ∷ ys) = x ∷ all_but_last (y ∷ ys)

abbrev pub history_of : {A : Type 0} → List A → List A
history_of values = if ltb 1 (length values) then all_but_last values else values

abbrev pub status_of : Bool → FinalStatus
status_of true = anomaly_warning
status_of false = normal

module _ {F : Type 0} where
  -- {e['gas']: e['level'] for e in …}
  abbrev pub levels_of : Dict String GasLevel → List (Exceeded F) → Dict String GasLevel
  levels_of d [] = d
  levels_of d (e ∷ es) = levels_of (insert e.gas e.level d) es

module _ {F : Type 0} ⦃f : Float F⦄ where
  -- Z_THRESHOLD
  abbrev z_threshold : F
  z_threshold = lit 3

  -- A result past its threshold, with no statistics.
  abbrev critical_result : String → String → F → GasLevel → ℕ → AnomalyResult F
  critical_result uid gas current level measured_at = record {
    device_uid = uid;
    metric = gas;
    value = current;
    mean = none;
    std = none;
    z_score = none;
    direction = none;
    threshold_status = some level;
    stat_status = normal;
    final_status = critical;
    measured_at = measured_at;
  }

  -- Whether a score is anomalous: for O2 the low side alone.
  unfoldable pub is_anomaly_score : String → F → Bool
  is_anomaly_score gas z = if gas =? "o2" then z <= f.neg z_threshold else f.abs z >= z_threshold

  -- z = (current - mean) / (std + 1e-9)
  unfoldable pub score : Stats F → List F → F → F
  score stats history current =
      f.div (f.sub current (stats.mean history)) (f.add (stats.std history) (f.decimal 1 9))

  unfoldable pub scored_result : Stats F → String → String → F → List F → ℕ → AnomalyResult F
  unfolding score is_anomaly_score
  scored_result stats uid gas current history measured_at =
      let z = score stats history current in
      let status = status_of (is_anomaly_score gas z) in
      record {
        device_uid = uid;
        metric = gas;
        value = current;
        mean = some (f.round 4 (stats.mean history));
        std = some (f.round 4 (f.add (stats.std history) (f.decimal 1 9)));
        z_score = some (f.round 4 z);
        direction = some (if z <! lit 0 then decrease else increase);
        threshold_status = none;
        stat_status = status;
        final_status = status;
        measured_at = measured_at;
      }

  -- The results of one gas whose limit is not exceeded, from the values of its buffer.
  unfoldable pub score_values : Stats F → String → String → F → ℕ → List F → List (AnomalyResult F)
  unfolding scored_result
  score_values stats uid gas current measured_at values =
      if ltb (length (history_of values)) 2
      then []
      else scored_result stats uid gas current (history_of values) measured_at ∷ []

  -- The part of the loop's body for a gas of known value and level.
  unfoldable pub analyze_value :
      Stats F
      → Rows F
      → String
      → ℕ
      → String
      → F
      → Option GasLevel
      → Buffers F
      → List (AnomalyResult F) × Buffers F
  unfolding score_values is_ready get
  analyze_value stats rows uid measured_at gas current (some level) b =
      (critical_result uid gas current level measured_at ∷ [], b)
  analyze_value stats rows uid measured_at gas current none b =
      if is_ready uid gas min_samples b
      then (
        score_values stats uid gas current measured_at (get rows uid gas window_size b).0,
        (get rows uid gas window_size b).1,
      )
      else ([], b)

  unfoldable pub analyze_gas :
      Stats F
      → Rows F
      → String
      → ℕ
      → String
      → Option F
      → Option GasLevel
      → Buffers F
      → List (AnomalyResult F) × Buffers F
  unfolding analyze_value
  analyze_gas stats rows uid measured_at gas none level b = ([], b)
  analyze_gas stats rows uid measured_at gas (some current) level b =
      analyze_value stats rows uid measured_at gas current level b

  unfoldable pub analyze_loop :
      Stats F
      → Rows F
      → String
      → GasReading F
      → Dict String GasLevel
      → List String
      → Buffers F
      → List (AnomalyResult F) × Buffers F
  unfolding analyze_gas read_gas
  analyze_loop stats rows uid r exceeded [] b = ([], b)
  analyze_loop stats rows uid r exceeded (gas ∷ gases) b =
      let (first, b') =
        analyze_gas stats rows uid r.measured_at gas (read_gas r gas) (lookup gas exceeded) b in
      let (rest, b'') = analyze_loop stats rows uid r exceeded gases b' in (first ++ rest, b'')

  -- analyze: the results, which `_latest` keeps too, and the buffers
  unfoldable pub analyze :
      Stats F
      → Rows F
      → List (ThresholdPolicy F)
      → String
      → GasReading F
      → Buffers F
      → List (AnomalyResult F) × Buffers F
  unfolding analyze_loop check_threshold_exceeded
  analyze stats rows policies uid r b =
      analyze_loop stats rows uid r (levels_of [] (check_threshold_exceeded policies r "실시간 관제"))
        gas_fields b
