-- ===== src/Examples/Windows.antt =====
-- Windows of three points over two channels.
use icmp.Base.{ℕ, String, ◌≡◌, refl, true, some, List, [], ◌∷◌, last, string_eq, pair_eq}
use icmp.Float.Fixed.{Fixed, whole}
use icmp.Engine.{DataPoint}
use icmp.Engine.Window.{SlidingWindow, ok, init, push_many, get}
use icmp.Engine.Window.History.{of_channel, get-push_many}

abbrev point : String → ℕ → DataPoint Fixed
point sensor n = record {
  timestamp = n;
  device_id = "d1";
  sensor_type = sensor;
  value = some (whole n);
  is_valid = true;
}

abbrev points : List (DataPoint Fixed)
points = point "co" 1 ∷ point "h2s" 2 ∷ point "co" 3 ∷ point "co" 4 ∷ point "co" 5 ∷ []

abbrev empty : SlidingWindow Fixed
empty = record { window_size = 3; channels = [] }

built : init 3 ≡ ok empty
unfolding init
built = refl

get-push_many_example :
    get (push_many empty points) "d1" "co" ≡ last 3 (of_channel ("d1", "co") points)
get-push_many_example = get-push_many 3 empty points "d1" "co" built

kept : last 3 (of_channel ("d1", "co") points) ≡ (point "co" 3 ∷ point "co" 4 ∷ point "co" 5 ∷ [])
kept = refl
