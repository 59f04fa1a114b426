-- ===== src/Examples/Bundles.antt =====
-- Two sensors of one device, of which one has no value.
use icmp.Base.{String, Bool, Option, ◌≡◌, refl, true, false, none, some, [], ◌∷◌}
use icmp.Float.Fixed.{Fixed, fixed_float, whole}
use icmp.Engine.{DataPoint}
use icmp.Engine.Bundle.{ok, bundle_of, from_data_points, to_data_points, to_vector, valid_ratio}
use icmp.Engine.Bundle.Trips.{to_data_points-from_data_points}

abbrev reading : String → Option Fixed → Bool → DataPoint Fixed
reading sensor value is_valid = record {
  timestamp = 5;
  device_id = "d1";
  sensor_type = sensor;
  value = value;
  is_valid = is_valid;
}

abbrev co : DataPoint Fixed
co = reading "co" (some (whole 5)) true

abbrev o2 : DataPoint Fixed
o2 = reading "o2" none false

to_data_points-from_data_points_example :
    (from_data_points (co ∷ o2 ∷ []) ≡ ok (bundle_of co (co ∷ o2 ∷ [])))
    × (to_data_points (bundle_of co (co ∷ o2 ∷ [])) ≡ co ∷ o2 ∷ [])
to_data_points-from_data_points_example =
    to_data_points-from_data_points co (o2 ∷ []) ((refl, refl), ((refl, refl), tt)) refl

vector :
    to_vector (bundle_of co (co ∷ o2 ∷ [])) ("o2" ∷ "co" ∷ "voc" ∷ []) ≡ none ∷ whole 5 ∷ none ∷ []
unfolding to_vector bundle_of
vector = refl

half : valid_ratio (bundle_of co (co ∷ o2 ∷ [])) ≡ fixed_float.decimal 5 1
unfolding valid_ratio bundle_of
half = refl
