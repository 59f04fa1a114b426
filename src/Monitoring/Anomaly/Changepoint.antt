-- ===== src/Monitoring/Anomaly/Changepoint.antt =====
-- monitoring/anomaly/changepoint.py: the older half of each buffer against the newer half, and the
-- state of each gas of each device.
pub mod Trace
use icmp.Base.{
  ℕ, ◌+◌, String, Bool, true, false, ◌||◌, Option, none, some, List, [], ◌∷◌, ◌++◌, map, length,
  ltb, take, drop, if◌then◌else◌, Dict, lookup, insert, has_key, string_eq,
}
use icmp.Float.{Float, lit, ◌<=◌, ◌>=◌}
use icmp.Monitoring.Types.{GasReading}
use icmp.Monitoring.Anomaly.{Stats}
use icmp.Monitoring.Anomaly.Buffers.{Buffers, Rows, window_size, buffer_size, get}

-- 'STABLE', 'SHIFT'
pub data CpState : Type 0 where
  stable shift : CpState

-- 'CHANGE_POINT', 'BACK_TO_STABLE'
pub data CpEvent : Type 0 where
  change_point back_to_stable : CpEvent

pub record CpResult (F : Type 0) : Type 0 where
  pub device_uid : String
  pub metric : String
  pub prev_mean : F
  pub prev_std : F
  pub curr_mean : F
  pub curr_std : F
  pub mean_shift_score : F
  pub std_ratio : F
  pub is_change : Bool
  pub state : CpState
  pub event : Option CpEvent
  pub measured_at : ℕ

-- _state[device_uid][gas]
abbrev pub States : Type 0
States = Dict String (Dict String CpState)

-- CP_GAS_FIELDS
abbrev pub cp_gas_fields : List String
cp_gas_fields = "co" ∷ "co2" ∷ "h2s" ∷ "o2" ∷ "voc" ∷ []

abbrev pub initial_states : Dict String CpState
initial_states = map (λ gas. (gas, stable)) cp_gas_fields

-- _ensure_state
unfoldable pub ensure_state : String → States → States
ensure_state uid s = if has_key uid s then s else insert uid initial_states s

abbrev pub or_stable : Option CpState → CpState
or_stable none = stable
or_stable (some s) = s

abbrev pub or_none : Option (Dict String CpState) → Dict String CpState
or_none none = []
or_none (some d) = d

-- _state[device_uid][gas]; a device or a gas that is not there yet starts as STABLE.
abbrev pub state_of : String → String → States → CpState
state_of uid gas s = or_stable (lookup gas (or_none (lookup uid s)))

abbrev pub set_state : String → String → CpState → States → States
set_state uid gas v s = insert uid (insert gas v (or_none (lookup uid s))) s

-- The next state and the event, from `is_change` and the state before.
unfoldable pub next_state : Bool → CpState → CpState
next_state true s = shift
next_state false s = stable

unfoldable pub event_of : Bool → CpState → Option CpEvent
event_of true stable = some change_point
event_of true shift = none
event_of false stable = none
event_of false shift = some back_to_stable

module _ {F : Type 0} ⦃f : Float F⦄ where
  unfoldable pub shift_score : Stats F → List F → List F → F
  shift_score stats prev curr =
      f.div (f.abs (f.sub (stats.mean curr) (stats.mean prev)))
        (f.add (stats.std prev) (f.decimal 1 9))

  unfoldable pub ratio_of : Stats F → List F → List F → F
  ratio_of stats prev curr =
      f.div (f.add (stats.std curr) (f.decimal 1 9)) (f.add (stats.std prev) (f.decimal 1 9))

  unfoldable pub is_change_of : F → F → Bool
  is_change_of score ratio =
      (score >= lit 3) || ((ratio >= lit 3) || (ratio <= f.div (lit 1) (lit 3)))

  -- The result of one gas with enough values, and the states after it.
  unfoldable pub detect_values :
      Stats F → String → ℕ → String → List F → List F → States → CpResult F × States
  unfolding shift_score ratio_of is_change_of next_state event_of
  detect_values stats uid measured_at gas prev curr s =
      let score = shift_score stats prev curr in
      let ratio = ratio_of stats prev curr in
      let is_change = is_change_of score ratio in
      let before = state_of uid gas s in
      let after = next_state is_change before in
      (
        record {
          device_uid = uid;
          metric = gas;
          prev_mean = f.round 4 (stats.mean prev);
          prev_std = f.round 4 (stats.std prev);
          curr_mean = f.round 4 (stats.mean curr);
          curr_std = f.round 4 (stats.std curr);
          mean_shift_score = f.round 4 score;
          std_ratio = f.round 4 ratio;
          is_change = is_change;
          state = after;
          event = event_of is_change before;
          measured_at = measured_at;
        },
        set_state uid gas after s,
      )

  unfoldable pub detect_gas :
      Stats F → String → ℕ → String → List F → States → List (CpResult F) × States
  unfolding detect_values
  detect_gas stats uid measured_at gas values s =
      if ltb (length values) buffer_size
      then ([], s)
      else (let (r, t) =
            detect_values stats uid measured_at gas (take window_size values)
              (drop window_size values) s in
          (r ∷ [], t))

  unfoldable pub detect_loop :
      Stats F
      → Rows F
      → String
      → ℕ
      → List String
      → Buffers F
      → States
      → List (CpResult F) × Buffers F × States
  unfolding detect_gas get
  detect_loop stats rows uid measured_at [] b s = ([], b, s)
  detect_loop stats rows uid measured_at (gas ∷ gases) b s =
      let (values, b') = get rows uid gas buffer_size b in
      let (first, s') = detect_gas stats uid measured_at gas values s in
      let (rest, b'', s'') = detect_loop stats rows uid measured_at gases b' s' in
      (first ++ rest, b'', s'')

  -- detect: the results, which `_latest` keeps too, the buffers, and the states
  unfoldable pub detect :
      Stats F
      → Rows F
      → String
      → GasReading F
      → Buffers F
      → States
      → List (CpResult F) × Buffers F × States
  unfolding detect_loop ensure_state
  detect stats rows uid r b s =
      detect_loop stats rows uid r.measured_at cp_gas_fields b (ensure_state uid s)
