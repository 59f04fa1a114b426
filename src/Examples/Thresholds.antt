-- ===== src/Examples/Thresholds.antt =====
-- A table with a high-side, a low-side and a two-sided entry.
use icmp.Base.{String, ◌≡◌, refl, true, Option, none, some, [], ◌∷◌, Dict, string_eq}
use icmp.Float.Fixed.{Fixed, fixed_float, whole}
use icmp.Engine.{danger, DataPoint}
use icmp.Engine.Threshold.{Info, err, bad_direction, init, classify, evaluate, is_allowed}
use icmp.Engine.Threshold.Verdict.{worse, evaluate-both_sides}

abbrev entry :
    String
    → Option Fixed
    → Option Fixed
    → Option Fixed
    → Option Fixed
    → Option Fixed
    → Option Fixed
    → Info Fixed
entry d c e ch dh cl dl = record {
  direction = some d;
  caution_limit = c;
  danger_limit = e;
  caution_high = ch;
  danger_high = dh;
  caution_low = cl;
  danger_low = dl;
}

abbrev co : Info Fixed
co = entry "high" (some (whole 25)) (some (whole 200)) none none none none

abbrev low_o2 : Info Fixed
low_o2 = entry "low" (some (whole 18)) (some (whole 16)) none none none none

abbrev high_o2 : Info Fixed
high_o2 = entry "high" (some (whole 23)) (some (whole 25)) none none none none

abbrev o2 : Info Fixed
o2 = entry "both" none none (some (whole 23)) (some (whole 25)) (some (whole 18)) (some (whole 16))

abbrev table : Dict String (Info Fixed)
table = ("co", co) ∷ ("o2", o2) ∷ []

abbrev bad_table : Dict String (Info Fixed)
bad_table = ("co", co) ∷ ("voc", entry "up" none none none none none none) ∷ []

abbrev reading : String → Option Fixed → DataPoint Fixed
reading sensor v = record {
  timestamp = 7;
  device_id = "d1";
  sensor_type = sensor;
  value = v;
  is_valid = true;
}

refused : init bad_table ≡ err (bad_direction "voc" (some "up"))
unfolding init is_allowed
refused = refl

evaluate-both_sides_example :
    evaluate o2 (whole 15) ≡ worse (evaluate high_o2 (whole 15)) (evaluate low_o2 (whole 15))
evaluate-both_sides_example =
    evaluate-both_sides o2 high_o2 low_o2 (whole 23) (whole 25) (whole 18) (whole 16) (whole 15)
      refl refl refl (refl, refl) (refl, refl) (refl, refl) (refl, refl)

too_low : (classify table (reading "o2" (some (whole 15)))).level ≡ danger
unfolding classify evaluate
too_low = refl
