-- ===== src/Engine/Window.antt =====
-- common/modules/sliding_window.py: the last N points of each channel.
pub mod History
pub mod Channels
use icmp.Base.{
  ℕ, zero, ◌+◌, String, Bool, true, false, ◌&&◌, Option, none, some, List, [], ◌∷◌, map, length,
  leb, ◌==◌, if◌then◌else◌, Dict, lookup, insert, delete, string_eq, pair_eq, append,
}
use icmp.Float.{Float, lit, ◌>=◌}
use icmp.Engine.Types.{DataPoint}

-- ChannelKey: (device_id, sensor_type)
abbrev pub Key : Type 0
Key = String × String

abbrev pub key_of : {F : Type 0} → DataPoint F → Key
key_of p = (p.device_id, p.sensor_type)

pub record SlidingWindow (F : Type 0) : Type 0 where
  pub window_size : ℕ
  pub channels : Dict Key (List (DataPoint F))

pub record SlidingWindowSnapshot (F : Type 0) : Type 0 where
  pub device_id : String
  pub sensor_type : String
  pub points : List (DataPoint F)
  pub is_full : Bool
  pub valid_ratio : F
  pub window_size : ℕ

-- The two `ValueError`s: of `__init__` and of `clear`.
pub data WindowError : Type 0 where
  bad_size : ℕ → WindowError
  half_key : WindowError

pub data WindowResult (F : Type 0) : Type 0 where
  ok : SlidingWindow F → WindowResult F
  err : WindowError → WindowResult F

abbrev pub points_of : {F : Type 0} → Option (List (DataPoint F)) → List (DataPoint F)
points_of none = []
points_of (some q) = q

module _ {F : Type 0} where
  -- __init__
  unfoldable pub init : ℕ → WindowResult F
  init zero = err (bad_size 0)
  init n = ok (record { window_size = n; channels = [] })

  -- push: a channel that is not there starts as an empty deque.
  unfoldable pub push : SlidingWindow F → DataPoint F → SlidingWindow F
  push w p =
      let q = points_of (lookup (key_of p) w.channels) in
      record w { channels = insert (key_of p) (append w.window_size q p) w.channels }

  -- push_many
  unfoldable pub push_many : SlidingWindow F → List (DataPoint F) → SlidingWindow F
  push_many w [] = w
  push_many w (p ∷ ps) = push_many (push w p) ps

  -- get
  unfoldable pub get : SlidingWindow F → String → String → List (DataPoint F)
  get w device sensor = points_of (lookup (device, sensor) w.channels)

  -- is_full
  unfoldable pub is_full : SlidingWindow F → String → String → Bool
  is_full w device sensor = elim (lookup (device, sensor) w.channels) [
    | none ↦ false
    | some q ↦ length q == w.window_size
  ]

  abbrev pub is_valid_point : DataPoint F → Bool
  is_valid_point p = elim p.value [ none ↦ false | some v ↦ p.is_valid ]

  -- sum(1 for p in q if p.value is not None and p.is_valid)
  unfoldable pub valid_count : List (DataPoint F) → ℕ
  valid_count [] = 0
  valid_count (p ∷ q) = (if is_valid_point p then 1 else 0) + valid_count q

  -- channel_count
  unfoldable pub channel_count : SlidingWindow F → ℕ
  channel_count w = length w.channels

  -- channels
  unfoldable pub channel_keys : SlidingWindow F → List Key
  channel_keys w = map (λ c. c.0) w.channels

  -- clear
  unfoldable pub clear : SlidingWindow F → Option String → Option String → WindowResult F
  clear w none none = ok (record w { channels = [] })
  clear w none (some sensor) = err half_key
  clear w (some device) none = err half_key
  clear w (some device) (some sensor) =
      ok (record w { channels = delete (device, sensor) w.channels })

module _ {F : Type 0} ⦃f : Float F⦄ where
  abbrev value_or_nan : DataPoint F → F
  value_or_nan p = elim p.value [ none ↦ f.nan | some v ↦ v ]

  -- get_values
  unfoldable pub get_values : SlidingWindow F → String → String → List F
  unfolding get
  get_values w device sensor = map value_or_nan (get w device sensor)

  ratio_of : List (DataPoint F) → F
  ratio_of [] = f.decimal 0 1
  ratio_of q = f.div (lit (valid_count q)) (lit (length q))

  -- valid_ratio
  unfoldable pub valid_ratio : SlidingWindow F → String → String → F
  unfolding ratio_of valid_count
  valid_ratio w device sensor = elim (lookup (device, sensor) w.channels) [
    | none ↦ f.decimal 0 1
    | some q ↦ ratio_of q
  ]

  -- get_snapshot
  unfoldable pub get_snapshot : SlidingWindow F → String → String → SlidingWindowSnapshot F
  unfolding get is_full valid_ratio
  get_snapshot w device sensor = record {
    device_id = device;
    sensor_type = sensor;
    points = get w device sensor;
    is_full = is_full w device sensor;
    valid_ratio = valid_ratio w device sensor;
    window_size = w.window_size;
  }

  -- SlidingWindowSnapshot.is_usable
  unfoldable pub is_usable : SlidingWindowSnapshot F → F → Bool
  is_usable s min_valid_ratio = s.is_full && s.valid_ratio >= min_valid_ratio
