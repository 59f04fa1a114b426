-- ===== src/Examples/Detectors.antt =====
-- A channel that steps up in the middle of its window, with small versions of numpy and ruptures: the
-- change is put in the middle of the signal.
use icmp.Base.{ℕ, ◌/◌, ◌≡◌, refl, true, some, List, [], ◌∷◌, map, length, ◌&&◌, arith}
use icmp.Float.Fixed.{Fixed, fixed_float, whole, Fixed-IsOrdered}
use icmp.Engine.{DataPoint}
use icmp.Engine.Window.{
  SlidingWindow, get_values, get_snapshot, valid_ratio, is_usable, is_valid_point,
}
use icmp.Engine.Detect.{Numeric, found}
use icmp.Engine.Detect.Zscore
use icmp.Engine.Detect.Zscore.{ZScoreDetector}
use icmp.Engine.Detect.Zscore.Verdict.{Scored, detect-Scored}
use icmp.Engine.Detect.Changepoint.{ChangePointDetector, flow_detection, detect}
use icmp.Engine.Detect.Changepoint.Signal.{KeepsLength}
use icmp.Engine.Detect.Changepoint.Verdict.{Verdict, is_judged, detect-Verdict}
use icmp.Engine.Detect.Anchor.{anchor_status}
use icmp.Engine.Detect.Anchor.Bounds.{GivesAscending, Bounded, anchor_status-Bounded}
use icmp.Engine.Detect.Anchor.Edges.{
  Call, rises, anchor_all, of_channel, calls_of, has_moved, kept, triggers, triggers-anchor_all,
}

abbrev sum : List Fixed → Fixed
sum [] = whole 0
sum (x ∷ xs) = fixed_float.add x (sum xs)

abbrev pub mean : List Fixed → Fixed
mean xs = fixed_float.div (sum xs) (whole (length xs))

abbrev squared : Fixed → Fixed
squared x = fixed_float.mul x x

abbrev var : List Fixed → Fixed
var xs = mean (map (λ x. squared (fixed_float.sub x (mean xs))) xs)

abbrev pub first : List Fixed → Fixed
first [] = whole 0
first (x ∷ xs) = x

abbrev pub numeric : Numeric Fixed
numeric = record {
  mean = mean;
  var = var;
  nanmean = mean;
  nanstd = var;
  log = λ x. whole 1;
  interp = λ x xp fp. map (λ i. first fp) x;
  isfinite = λ x. fixed_float.le x x;
  int = λ x. 2;
  pelt = λ model min_size pen signal. found (length signal / 2 ∷ length signal ∷ []);
}

length-fill : (v : Fixed) (xs : List ℕ) → length (map (λ i. v) xs) ≡ length xs
length-fill v [] = refl
length-fill v (x ∷ xs) = omega (arith, length-fill v xs)

numeric-KeepsLength : KeepsLength numeric
numeric-KeepsLength = record { length-interp = λ x xp fp. length-fill (first fp) x }

numeric-GivesAscending : GivesAscending numeric
numeric-GivesAscending = record { ascending = λ model min_size pen signal raw e. ground arith }

abbrev pub point : ℕ → DataPoint Fixed
point n = record {
  timestamp = n;
  device_id = "d1";
  sensor_type = "co";
  value = some (whole n);
  is_valid = true;
}

abbrev window : List (DataPoint Fixed) → SlidingWindow Fixed
window ps = record { window_size = 4; channels = (("d1", "co"), ps) ∷ [] }

abbrev steady : List (DataPoint Fixed)
steady = point 1 ∷ point 1 ∷ point 1 ∷ point 1 ∷ []

abbrev stepped : List (DataPoint Fixed)
stepped = point 1 ∷ point 1 ∷ point 9 ∷ point 9 ∷ []

abbrev detector : ChangePointDetector Fixed
detector = record {
  purpose = flow_detection;
  min_size_ratio = fixed_float.decimal 5 1;
  significance_level = fixed_float.decimal 5 2;
  min_valid_ratio = fixed_float.decimal 8 1;
  cost_model = "l2";
  magnitude_gate = whole 3;
  contamination_block = 2;
  min_size = 2;
  last_contamination = [];
}

abbrev scorer : ZScoreDetector Fixed
scorer = record { z_threshold = whole 3; min_valid_ratio = fixed_float.decimal 8 1 }

found_change : (detect numeric 0 (window stepped) detector "d1" "co").breakpoints ≡ (2 ∷ [])
unfolding detect
found_change = refl

anchored : (anchor_status numeric 0 (window stepped) detector "d1" "co").0.anchor_index ≡ some 2
unfolding anchor_status
anchored = refl

detect-Verdict_example :
    Verdict
      (is_judged numeric (window stepped) detector "d1" "co")
      (length (get_values (window stepped) "d1" "co"))
      (detect numeric 0 (window stepped) detector "d1" "co")
detect-Verdict_example =
    detect-Verdict numeric numeric-KeepsLength 0 (window stepped) detector "d1" "co"

detect-Scored_example :
    Scored
      (is_valid_point (point 9)
        && is_usable (get_snapshot (window stepped) "d1" "co") scorer.min_valid_ratio)
      (Zscore.detect numeric (window stepped) scorer (point 9))
unfolding valid_ratio
detect-Scored_example =
    detect-Scored Fixed-IsOrdered numeric (window stepped) scorer (point 9) refl refl

anchor_status-Bounded_example :
    Bounded
      (length (get_values (window stepped) "d1" "co"))
      (anchor_status numeric 0 (window stepped) detector "d1" "co").0
anchor_status-Bounded_example =
    anchor_status-Bounded numeric numeric-KeepsLength numeric-GivesAscending 0 (window stepped)
      detector "d1" "co"

abbrev call : List (DataPoint Fixed) → Call Fixed
call ps = record { now = 0; window = window ps; device_id = "d1"; sensor_type = "co" }

abbrev calls : List (Call Fixed)
calls = call steady ∷ call stepped ∷ call stepped ∷ []

triggers-anchor_all_example :
    triggers (of_channel ("d1", "co") (anchor_all numeric detector calls))
    ≡ rises
        (kept ("d1", "co") detector)
        (map (has_moved numeric (whole 3) 2) (calls_of ("d1", "co") calls))
triggers-anchor_all_example = triggers-anchor_all numeric detector calls ("d1", "co")
