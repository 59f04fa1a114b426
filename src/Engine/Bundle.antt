-- ===== src/Engine/Bundle.antt =====
-- common/data_types/sensor_bundle.py: the values of all sensors of a device at one time.
pub mod Trips
use icmp.Base.{
  ℕ, ◌+◌, String, Bool, true, false, not, ◌&&◌, Option, none, some, List, [], ◌∷◌, map, length,
  ◌==◌, if◌then◌else◌, Dict, lookup, insert, string_eq, ◌=?◌,
}
use icmp.Float.{Float, lit}
use icmp.Engine.Types.{DataPoint}

pub record SensorBundle (F : Type 0) : Type 0 where
  pub timestamp : ℕ
  pub device_id : String
  pub values : Dict String (Option F)
  pub is_valid_flags : Dict String Bool

-- The `ValueError`s of from_data_points: no points, and the first time or device that differs.
pub data BundleError : Type 0 where
  no_points : BundleError
  other_time : ℕ → ℕ → BundleError
  other_device : String → String → BundleError

pub data BundleResult (F : Type 0) : Type 0 where
  ok : SensorBundle F → BundleResult F
  err : BundleError → BundleResult F

-- is_valid_flags.get(sensor_type, True)
abbrev pub or_true : Option Bool → Bool
or_true none = true
or_true (some b) = b

module _ {F : Type 0} where
  -- The loop over points[1:].
  unfoldable pub check_points : ℕ → String → List (DataPoint F) → Option BundleError
  check_points timestamp device [] = none
  check_points timestamp device (p ∷ ps) =
      let rest = check_points timestamp device ps in
      if not (p.timestamp == timestamp)
      then some (other_time p.timestamp timestamp)
      else if not (p.device_id =? device)
      then some (other_device p.device_id device)
      else rest

  -- {p.sensor_type: g(p) for p in points}, behind the entries that are there
  unfoldable pub collect :
      {A : Type 0} → (DataPoint F → A) → List (DataPoint F) → Dict String A → Dict String A
  collect g [] d = d
  collect g (p ∷ ps) d = collect g ps (insert p.sensor_type (g p) d)

  unfoldable pub bundle_of : DataPoint F → List (DataPoint F) → SensorBundle F
  unfolding collect
  bundle_of first points = record {
    timestamp = first.timestamp;
    device_id = first.device_id;
    values = collect (λ p. p.value) points [];
    is_valid_flags = collect (λ p. p.is_valid) points [];
  }

  abbrev checked : SensorBundle F → Option BundleError → BundleResult F
  checked b none = ok b
  checked b (some e) = err e

  -- from_data_points
  unfoldable pub from_data_points : List (DataPoint F) → BundleResult F
  unfolding check_points bundle_of
  from_data_points [] = err no_points
  from_data_points (p ∷ ps) =
      checked (bundle_of p (p ∷ ps)) (check_points p.timestamp p.device_id ps)

  abbrev pub point_of : SensorBundle F → String × Option F → DataPoint F
  point_of b e = record {
    timestamp = b.timestamp;
    device_id = b.device_id;
    sensor_type = e.0;
    value = e.1;
    is_valid = or_true (lookup e.0 b.is_valid_flags);
  }

  -- to_data_points
  unfoldable pub to_data_points : SensorBundle F → List (DataPoint F)
  to_data_points b = map (point_of b) b.values

module _ {F : Type 0} ⦃f : Float F⦄ where
  abbrev pub vector_value : Option (Option F) → F
  vector_value none = f.nan
  vector_value (some none) = f.nan
  vector_value (some (some x)) = x

  -- to_vector
  unfoldable pub to_vector : SensorBundle F → List String → List F
  to_vector b sensors = map (λ s. vector_value (lookup s b.values)) sensors

  abbrev pub is_present : Option F → Bool
  is_present none = false
  is_present (some x) = true

  unfoldable pub count_present : Dict String Bool → Dict String (Option F) → ℕ
  count_present flags [] = 0
  count_present flags ((s, v) ∷ rest) =
      (if or_true (lookup s flags) && is_present v then 1 else 0) + count_present flags rest

  abbrev share : ℕ → ℕ → F
  share n total = if total == 0 then f.decimal 0 1 else f.div (lit n) (lit total)

  -- valid_ratio
  unfoldable pub valid_ratio : SensorBundle F → F
  unfolding count_present
  valid_ratio b = share (count_present b.is_valid_flags b.values) (length b.values)
