-- ===== src/Engine/Detect/Anchor.antt =====
-- common/modules/change_point.py: `anchor_status`, the anchor of a forecast's segment, and the state
-- that it keeps for each channel.
pub mod Edges
pub mod Bounds
use icmp.Base.{
  ℕ, zero, ◌+◌, ◌-◌, ◌*◌, String, Bool, true, false, not, ◌&&◌, Option, none, some, List, [], ◌∷◌,
  length, select, take, drop, ltb, leb, if◌then◌else◌, lookup, insert, format, decimal_text,
  string_eq, pair_eq,
}
use icmp.Float.{Float, lit, ◌>=◌, ◌>!◌}
use icmp.Engine.Types.{DataPoint}
use icmp.Engine.Window.{SlidingWindow, get, get_values}
use icmp.Engine.Detect.{Numeric, PeltAnswer, found, failed, without_nan, last_timestamp}
use icmp.Engine.Detect.Changepoint.{ChangePointDetector, interpolate_nan, penalty_of}

pub record CpAnchorResult (F : Type 0) : Type 0 where
  pub timestamp : ℕ
  pub device_id : String
  pub sensor_type : String
  pub anchor_index : Option ℕ
  pub segment_length : ℕ
  pub contamination : Bool
  pub trigger : Bool
  pub breakpoints : List ℕ
  pub gated_breakpoints : List ℕ
  pub magnitude_gate : F
  pub window_size : ℕ
  pub reason : String

-- gated[-1], if there is one
unfoldable pub last_of : List ℕ → Option ℕ
last_of [] = none
last_of (b ∷ []) = some b
last_of (b ∷ c ∷ rest) = last_of (c ∷ rest)

-- The bound that follows a breakpoint: the next breakpoint, or the end of the signal.
abbrev pub next_bound : ℕ → List ℕ → ℕ
next_bound n [] = n
next_bound n (b ∷ bs) = b

unfoldable pub segment_of : ℕ → Option ℕ → ℕ
segment_of n none = n
segment_of n (some b) = n - b

unfoldable pub anchor_reason : Option ℕ → ℕ → String
anchor_reason none segment = "anchor 없음 (최근 magnitude 변화점 미검출)"
anchor_reason (some b) segment =
    format ("anchor=idx" ∷ decimal_text b ∷ ", 구간 " ∷ decimal_text segment ∷ "시점" ∷ [])

-- _last_contamination.get(key, False)
abbrev pub or_false : Option Bool → Bool
or_false none = false
or_false (some b) = b

-- The points that the first part of `anchor_status` finds.
pub record Points : Type 0 where
  pub breakpoints : List ℕ
  pub gated : List ℕ

abbrev pub no_points : Points
no_points = record { breakpoints = []; gated = [] }

-- The breakpoints of Pelt's answer for a signal of length n; an exception leaves none.
unfoldable pub chosen : ℕ → PeltAnswer → List ℕ
chosen n (failed e) = []
chosen n (found raw) = select (λ b. ltb 0 b && ltb b n) raw

module _ {F : Type 0} ⦃f : Float F⦄ where
  -- xs[a:b]
  abbrev pub slice_of : ℕ → ℕ → List F → List F
  slice_of a b xs = take (b - a) (drop a xs)

  -- len(before) and len(after), and a jump of at least the gate
  unfoldable pub has_jump : Numeric F → F → List F → List F → Bool
  has_jump np gate before after =
      ltb 0 (length before)
      && (ltb 0 (length after) && f.abs (f.sub (np.mean after) (np.mean before)) >= gate)

  -- The loop over `bounds`, from the bound before the first breakpoint left.
  unfoldable pub gated_from : Numeric F → F → List F → ℕ → List ℕ → List ℕ
  unfolding has_jump
  gated_from np gate signal prev [] = []
  gated_from np gate signal prev (b ∷ bs) =
      let rest = gated_from np gate signal b bs in
      let before = slice_of prev b signal in
      let after = slice_of b (next_bound (length signal) bs) signal in
      if has_jump np gate before after then b ∷ rest else rest

  -- The breakpoints of a signal.
  unfoldable pub breakpoints_of : Numeric F → ChangePointDetector F → List F → List ℕ
  unfolding penalty_of chosen
  breakpoints_of np d signal =
      chosen (length signal) (np.pelt d.cost_model d.min_size (penalty_of np signal) signal)

  -- Part 1, of the signal if there is one.
  unfoldable pub signal_points : Numeric F → ChangePointDetector F → ℕ → Option (List F) → Points
  unfolding breakpoints_of gated_from
  signal_points np d n none = no_points
  signal_points np d n (some signal) =
      if leb (2 * d.min_size) n && np.var signal >! lit 0
      then (let breakpoints = breakpoints_of np d signal in
          record {
            breakpoints = breakpoints;
            gated = gated_from np d.magnitude_gate signal 0 breakpoints;
          })
      else no_points

  unfoldable pub points_of : Numeric F → ChangePointDetector F → List F → Points
  unfolding interpolate_nan signal_points
  points_of np d values =
      signal_points np d (length values)
        (if ltb 0 (length values) then interpolate_nan np values else none)

  -- Part 2: the newest block of values against the block before it.
  unfoldable pub contamination_of : Numeric F → F → ℕ → List F → Bool
  unfolding has_jump
  contamination_of np gate blk values =
      let n = length values in
      let recent = without_nan (drop (n - blk) values) in
      let prev = without_nan (slice_of (n - 2 * blk) (n - blk) values) in
      if leb (2 * blk) n then has_jump np gate prev recent else false

  -- The result, from the state of the channel before the call.
  unfoldable pub anchor_result :
      Numeric F
      → ℕ
      → SlidingWindow F
      → ChangePointDetector F
      → String
      → String
      → Bool
      → CpAnchorResult F
  unfolding last_timestamp get get_values points_of contamination_of last_of segment_of
      anchor_reason
  anchor_result np now w d device sensor before =
      let values = get_values w device sensor in
      let p = points_of np d values in
      let anchor = last_of p.gated in
      let segment = segment_of (length values) anchor in
      let contamination = contamination_of np d.magnitude_gate d.contamination_block values in
      record {
        timestamp = last_timestamp now (get w device sensor);
        device_id = device;
        sensor_type = sensor;
        anchor_index = anchor;
        segment_length = segment;
        contamination = contamination;
        trigger = contamination && not before;
        breakpoints = p.breakpoints;
        gated_breakpoints = p.gated;
        magnitude_gate = d.magnitude_gate;
        window_size = w.window_size;
        reason = anchor_reason anchor segment;
      }

  -- anchor_status; the argument `now` is the present time.
  unfoldable pub anchor_status :
      Numeric F
      → ℕ
      → SlidingWindow F
      → ChangePointDetector F
      → String
      → String
      → CpAnchorResult F × ChangePointDetector F
  unfolding anchor_result
  anchor_status np now w d device sensor =
      let before = or_false (lookup (device, sensor) d.last_contamination) in
      let r = anchor_result np now w d device sensor before in
      (
        r,
        record d {
          last_contamination = insert (device, sensor) r.contamination d.last_contamination;
        },
      )
