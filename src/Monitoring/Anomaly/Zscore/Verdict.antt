-- ===== src/Monitoring/Anomaly/Zscore/Verdict.antt =====
-- monitoring/anomaly/zscore.py: which gases of a reading are CRITICAL.
use icmp.Base.{
  ℕ, String, ◌≡◌, refl, ◌∙◌, Bool, true, false, ◌&&◌, ◌||◌, Option, none, some, List, [], ◌∷◌, ◌++◌,
  any, select, if◌then◌else◌, Dict, lookup, insert, lookup-insert, string_eq, ◌=?◌, arith,
}
use icmp.Float.{Float}
use icmp.Monitoring.Types.{GasReading, ThresholdPolicy, gas_fields, read_gas}
use icmp.Monitoring.Gas.{GasLevel, Exceeded, check_threshold_exceeded}
use icmp.Monitoring.Anomaly.{Stats}
use icmp.Monitoring.Anomaly.Buffers.{Buffers, Rows, window_size, get, is_ready}
use icmp.Monitoring.Anomaly.Zscore.{
  FinalStatus, critical, AnomalyResult, min_samples, levels_of, is_anomaly_score, status_of,
  history_of, score, scored_result, score_values, analyze_value, analyze_gas, analyze_loop, analyze,
}

abbrev is_some : {A : Type 0} → Option A → Bool
is_some none = false
is_some (some x) = true

if-cons :
    (b : Bool) (g : String) (gs : List String)
    → (if b then g ∷ [] else []) ++ gs ≡ (if b then g ∷ gs else gs)
if-cons true g gs = refl
if-cons false g gs = refl

abbrev is_critical : FinalStatus → Bool
is_critical critical = true
is_critical _ = false

module _ {F : Type 0} where
  -- The gases whose final status is CRITICAL, in the order of the results.
  abbrev pub critical_metrics : List (AnomalyResult F) → List String
  critical_metrics [] = []
  critical_metrics (r ∷ rs) =
      let rest = critical_metrics rs in if is_critical r.final_status then r.metric ∷ rest else rest

  -- The gas has a value in the reading, and a limit that it exceeds.
  abbrev pub is_over : GasReading F → List (Exceeded F) → String → Bool
  is_over r es g = is_some (read_gas r g) && any (λ e. e.gas =? g) es

  critical_metrics-append :
      (rs qs : List (AnomalyResult F))
      → critical_metrics (rs ++ qs) ≡ critical_metrics rs ++ critical_metrics qs
  critical_metrics-append [] qs = refl
  critical_metrics-append (r ∷ rs) qs = ground (arith, critical_metrics-append rs qs)

  lookup-levels_of :
      (g : String) (d : Dict String GasLevel) (es : List (Exceeded F))
      → is_some (lookup g (levels_of d es)) ≡ (is_some (lookup g d) || any (λ e. e.gas =? g) es)
  lookup-levels_of g d [] = ground arith
  lookup-levels_of g d (e ∷ es) =
      lookup-levels_of g (insert e.gas e.level d) es
      ∙ ground (arith, lookup-insert e.gas g e.level d)

module _ {F : Type 0} ⦃f : Float F⦄ (stats : Stats F) (rows : Rows F) (uid : String) where
  status_of-normal : (b : Bool) → is_critical (status_of b) ≡ false
  status_of-normal true = refl
  status_of-normal false = refl

  if-nil :
      (b : Bool) (xs : List (AnomalyResult F))
      → critical_metrics xs ≡ []
      → critical_metrics (if b then [] else xs) ≡ []
  if-nil true xs h = refl
  if-nil false xs h = h

  score_values-nil :
      (gas : String) (v : F) (t : ℕ) (values : List F)
      → critical_metrics (score_values stats uid gas v t values) ≡ []
  unfolding score_values scored_result
  score_values-nil gas v t values =
      if-nil _ (scored_result stats uid gas v (history_of values) t ∷ [])
        (rw (status_of-normal (is_anomaly_score gas (score stats (history_of values) v))) refl)

  if-fst :
      (b : Bool) (x y : List (AnomalyResult F) × Buffers F)
      → critical_metrics x.0 ≡ []
      → critical_metrics y.0 ≡ []
      → critical_metrics (if b then x else y).0 ≡ []
  if-fst true x y h k = h
  if-fst false x y h k = k

  critical-analyze_gas :
      (t : ℕ) (gas : String) (v : Option F) (level : Option GasLevel) (b : Buffers F)
      → critical_metrics (analyze_gas stats rows uid t gas v level b).0
        ≡ (if is_some v && is_some level then gas ∷ [] else [])
  unfolding analyze_gas analyze_value
  critical-analyze_gas t gas none level b = refl
  critical-analyze_gas t gas (some v) (some level) b = refl
  critical-analyze_gas t gas (some v) none b =
      if-fst (is_ready uid gas min_samples b) _ ([], b)
        (score_values-nil gas v t (get rows uid gas window_size b).0) refl

  critical-analyze_loop :
      (r : GasReading F) (levels : Dict String GasLevel) (gases : List String) (b : Buffers F)
      → critical_metrics (analyze_loop stats rows uid r levels gases b).0
        ≡ select (λ g. is_some (read_gas r g) && is_some (lookup g levels)) gases
  unfolding analyze_loop
  critical-analyze_loop r levels [] b = refl
  critical-analyze_loop r levels (gas ∷ gases) b =
      let (first, b') =
        analyze_gas stats rows uid r.measured_at gas (read_gas r gas) (lookup gas levels) b in
      let (rest, b'') = analyze_loop stats rows uid r levels gases b' in
      let here : critical_metrics first
          ≡ (if is_some (read_gas r gas) && is_some (lookup gas levels) then gas ∷ [] else []) =
        critical-analyze_gas r.measured_at gas (read_gas r gas) (lookup gas levels) b in
      let there : critical_metrics rest
          ≡ select (λ g. is_some (read_gas r g) && is_some (lookup g levels)) gases =
        critical-analyze_loop r levels gases b' in
      critical_metrics-append first rest
      ∙ rw (here, there) (if-cons (is_some (read_gas r gas) && is_some (lookup gas levels)) gas _)

  select-over :
      (r : GasReading F) (es : List (Exceeded F)) (gases : List String)
      → select (λ g. is_some (read_gas r g) && is_some (lookup g (levels_of [] es))) gases
        ≡ select (is_over r es) gases
  select-over r es [] = refl
  select-over r es (g ∷ gases) = rw (lookup-levels_of g [] es, select-over r es gases) refl

  -- The gases that `analyze` reports as CRITICAL are, in the order of the gases, those that have a
  -- value and exceed a limit, whatever the buffers, the rows and the statistics are: no score makes
  -- a gas CRITICAL, and no lack of samples keeps one from it.
  pub critical_metrics-analyze :
      (policies : List (ThresholdPolicy F)) (r : GasReading F) (b : Buffers F)
      → critical_metrics (analyze stats rows policies uid r b).0
        ≡ select (is_over r (check_threshold_exceeded policies r "실시간 관제")) gas_fields
  unfolding analyze
  critical_metrics-analyze policies r b =
      critical-analyze_loop r (levels_of [] (check_threshold_exceeded policies r "실시간 관제"))
        gas_fields b
      ∙ select-over r (check_threshold_exceeded policies r "실시간 관제") gas_fields
