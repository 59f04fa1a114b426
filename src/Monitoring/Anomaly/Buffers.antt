-- ===== src/Monitoring/Anomaly/Buffers.antt =====
-- monitoring/anomaly/window.py: the last values of each gas of each device.
pub mod History
use icmp.Base.{
  ℕ, zero, suc, ◌+◌, ◌-◌, String, Bool, true, false, Option, none, some, List, [], ◌∷◌, map, length,
  leb, last, take, drop, select, any, not, if◌then◌else◌, Dict, lookup, insert, has_key, string_eq,
  append,
}
use icmp.Monitoring.Types.{GasReading, gas_fields, read_gas}

-- WINDOW_SIZE and BUFFER_SIZE
abbrev pub window_size : ℕ
window_size = 30

abbrev pub buffer_size : ℕ
buffer_size = 60

-- _buffers[device_uid][gas]
abbrev pub Buffer : Type 0 → Type 0
Buffer F = Dict String (List F)

abbrev pub Buffers : Type 0 → Type 0
Buffers F = Dict String (Buffer F)

-- The readings of the database of quality `ok`, by the device, in the order of measured_at.
abbrev pub Rows : Type 0 → Type 0
Rows F = String → List (GasReading F)

abbrev pub or_empty : {A : Type 0} → Option (List A) → List A
or_empty none = []
or_empty (some xs) = xs

module _ {F : Type 0} where
  abbrev pub empty_buffer : Buffer F
  empty_buffer = map (λ gas. (gas, [])) gas_fields

  -- _ensure_buffer
  unfoldable pub ensure_buffer : String → Buffers F → Buffers F
  ensure_buffer uid b = if has_key uid b then b else insert uid empty_buffer b

  -- _buffers[device_uid][gas], where both keys are there
  abbrev pub values_in : String → String → Buffers F → List F
  values_in uid gas b = or_empty (lookup gas (or_empty (lookup uid b)))

  -- buf[gas].append(float(value)), where there is a value
  abbrev pub append_value : String → Option F → Buffer F → Buffer F
  append_value gas none buf = buf
  append_value gas (some v) buf = insert gas (append buffer_size (or_empty (lookup gas buf)) v) buf

  unfoldable pub append_reading : GasReading F → List String → Buffer F → Buffer F
  unfolding append read_gas
  append_reading r [] buf = buf
  append_reading r (gas ∷ gases) buf =
      append_reading r gases (append_value gas (read_gas r gas) buf)

  -- push
  unfoldable pub push : String → GasReading F → Buffers F → Buffers F
  unfolding ensure_buffer append_reading
  push uid r b =
      let ready = ensure_buffer uid b in
      insert uid (append_reading r gas_fields (or_empty (lookup uid ready))) ready

  append_readings : List (GasReading F) → Buffer F → Buffer F
  unfolding append_reading
  append_readings [] buf = buf
  append_readings (r ∷ rs) buf = append_readings rs (append_reading r gas_fields buf)

  -- init_from_db
  unfoldable pub init_from_db : Rows F → String → ℕ → Buffers F → Buffers F
  unfolding ensure_buffer append_readings
  init_from_db rows uid n b =
      let ready = ensure_buffer uid b in
      insert uid (append_readings (last n (rows uid)) (or_empty (lookup uid ready))) ready

  abbrev is_nil : List F → Bool
  is_nil [] = true
  is_nil (x ∷ xs) = false

  -- The buffers once `get` has looked at them.
  unfoldable pub fill : Rows F → String → String → Buffers F → Buffers F
  unfolding ensure_buffer init_from_db
  fill rows uid gas b =
      let ready = ensure_buffer uid b in
      if is_nil (values_in uid gas ready) then init_from_db rows uid buffer_size ready else ready

  -- get, for n > 0: the values, and the buffers after it
  unfoldable pub get : Rows F → String → String → ℕ → Buffers F → List F × Buffers F
  unfolding fill
  get rows uid gas n b =
      let filled = fill rows uid gas b in
      let values = values_in uid gas filled in
      (if leb (length values) n then values else last n values, filled)

  -- is_ready
  unfoldable pub is_ready : String → String → ℕ → Buffers F → Bool
  is_ready uid gas min_samples b = elim (lookup uid b) [
    | none ↦ false
    | some buf ↦ leb min_samples (length (or_empty (lookup gas buf)))
  ]

  min_length : List (List F) → ℕ
  min_length [] = 0
  min_length (xs ∷ []) = length xs
  min_length (xs ∷ xss) = let m = min_length xss in if leb (length xs) m then length xs else m

  heads : List (List F) → List F
  heads [] = []
  heads ([] ∷ xss) = heads xss
  heads ((x ∷ xs) ∷ xss) = x ∷ heads xss

  -- The first n rows of columns that have so many elements.
  rows_of : ℕ → List (List F) → List (List F)
  unfolding heads
  rows_of zero columns = []
  rows_of (suc n) columns = heads columns ∷ rows_of n (map (drop 1) columns)

  -- get_vectors
  unfoldable pub get_vectors : Rows F → String → ℕ → Buffers F → List (List F) × Buffers F
  unfolding ensure_buffer init_from_db min_length rows_of
  get_vectors rows uid n b =
      let ready = ensure_buffer uid b in
      let filled =
        if any (λ gas. not (is_nil (values_in uid gas ready))) gas_fields
        then ready
        else init_from_db rows uid n ready in
      let columns = map (λ gas. values_in uid gas filled) gas_fields in
      let m = min_length columns in (rows_of (m - (m - n)) (map (drop (m - n)) columns), filled)

  present : List (Option F) → List F
  present [] = []
  present (none ∷ vs) = present vs
  present (some v ∷ vs) = v ∷ present vs

  -- get_window
  unfoldable pub get_window : Rows F → String → String → ℕ → List F
  unfolding present read_gas
  get_window rows uid gas n = last n (present (map (λ r. read_gas r gas) (rows uid)))

  -- get_window_readings
  unfoldable pub get_window_readings : Rows F → String → ℕ → List (GasReading F)
  get_window_readings rows uid n = last n (rows uid)
