-- ===== src/Examples/Anomalies.antt =====
-- Two readings of a device, and statistics that answer a constant.
use icmp.Base.{String, ◌≡◌, refl, List, [], ◌∷◌, last, arith}
use icmp.Float.Fixed.{Fixed, fixed_float, whole}
use icmp.Monitoring.{GasReading, read_gas}
use icmp.Monitoring.Anomaly.{Stats}
use icmp.Monitoring.Anomaly.Buffers.{Rows, get}
use icmp.Monitoring.Anomaly.Buffers.History.{push_readings, recorded, get-push_readings}
use icmp.Monitoring.Anomaly.Changepoint.{state_of}
use icmp.Monitoring.Anomaly.Changepoint.Trace.{Trace, events_of, detect_many, detect_many-Trace}
use icmp.Examples.Readings.{gases}

abbrev stats : Stats Fixed
stats = record { mean = λ xs. whole 10; std = λ xs. whole 2 }

abbrev rows : Rows Fixed
rows = λ uid. []

abbrev calls : List (String × GasReading Fixed)
calls = ("gas-1", gases) ∷ ("gas-2", gases) ∷ ("gas-1", gases) ∷ []

get-push_readings_example :
    (get rows "gas-1" "co" 30 (push_readings calls [])).0 ≡ last 30 (recorded "gas-1" "co" calls)
unfolding read_gas
get-push_readings_example =
    get-push_readings rows "gas-1" "co" 30 calls refl (omega arith) (omega arith) (omega arith)

detect_many-Trace_example :
    Trace
      (state_of "gas-1" "co" [])
      (events_of "gas-1" "co" (detect_many stats "gas-1" "co" rows calls [] []).0)
      (state_of "gas-1" "co" (detect_many stats "gas-1" "co" rows calls [] []).1)
detect_many-Trace_example = detect_many-Trace stats "gas-1" "co" rows calls [] []
