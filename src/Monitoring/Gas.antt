-- ===== src/Monitoring/Gas.antt =====
-- monitoring/services.py: the gas limits, the level of a reading and the list of exceeded gases.
pub mod Level
pub mod Limits
use icmp.Base.{
  ℕ, String, Bool, true, false, ◌&&◌, ◌||◌, not, Option, none, some, List, [], ◌∷◌, ◌++◌, select,
  any, leb, if◌then◌else◌, Dict, insert, string_eq, ◌=?◌, contains,
}
use icmp.Float.{Float, lit, ◌>=◌, ◌<!◌, ◌>!◌}
use icmp.Monitoring.Types.{GasReading, ThresholdPolicy, read_gas}

-- '정상', '주의', '위험'
pub data GasLevel : Type 0 where
  normal warning danger : GasLevel

-- LEVEL_PRIORITY
abbrev pub priority : GasLevel → ℕ
priority normal = 0
priority warning = 1
priority danger = 2

-- max(a, b, key=LEVEL_PRIORITY): the first of two that tie
abbrev pub max_level : GasLevel → GasLevel → GasLevel
max_level a b = if leb (priority b) (priority a) then a else b

pub record Exceeded (F : Type 0) : Type 0 where
  pub gas : String
  pub value : F
  pub level : GasLevel

-- (warn, danger) of each gas
abbrev pub Thresholds : Type 0 → Type 0
Thresholds F = Dict String (F × F)

module _ {F : Type 0} ⦃f : Float F⦄ where
  -- O2_WARN, O2_DANGER, O2_HIGH
  abbrev pub o2_warn : F
  o2_warn = lit 18

  abbrev pub o2_danger : F
  o2_danger = lit 16

  abbrev pub o2_high : F
  o2_high = f.decimal 235 1

  -- DEFAULT_THRESHOLDS
  unfoldable pub default_thresholds : Thresholds F
  default_thresholds =
      ("co", (lit 25, lit 200))
      ∷ ("h2s", (lit 10, lit 15))
      ∷ ("co2", (lit 1000, lit 5000))
      ∷ ("no2", (lit 3, lit 5))
      ∷ ("so2", (lit 2, lit 5))
      ∷ ("o3", (f.decimal 6 2, f.decimal 12 2))
      ∷ ("nh3", (lit 25, lit 35))
      ∷ ("voc", (f.decimal 5 1, lit 1))
      ∷ []

  abbrev pub applies : String → ThresholdPolicy F → Bool
  applies scope p = p.is_active && (contains scope p.scope || p.scope =? "")

  -- One entry of the dict comprehension, where its conditions hold.
  add_limits : String → Option F → Option F → Thresholds F → Thresholds F
  add_limits metric (some w) (some x) d = if metric =? "o2" then d else insert metric (w, x) d
  add_limits metric _ _ d = d

  add_policy : ThresholdPolicy F → Thresholds F → Thresholds F
  unfolding add_limits
  add_policy p d = add_limits p.metric_code p.warning_max p.danger_max d

  -- The dict comprehension: a later policy of a metric replaces the limits of an earlier one.
  collect : Thresholds F → List (ThresholdPolicy F) → Thresholds F
  unfolding add_policy
  collect d [] = d
  collect d (p ∷ ps) = collect (add_policy p d) ps

  -- The limits from the policies that apply.
  thresholds_of : List (ThresholdPolicy F) → Thresholds F
  unfolding collect default_thresholds
  thresholds_of [] = default_thresholds
  thresholds_of (p ∷ ps) = collect [] (p ∷ ps)

  -- get_thresholds; `policies` are the rows of the table.
  unfoldable pub get_thresholds : List (ThresholdPolicy F) → String → Thresholds F
  unfolding thresholds_of contains
  get_thresholds policies scope = thresholds_of (select (applies scope) policies)

  -- The level of O2, where it is outside of the normal range.
  o2_level : F → Option GasLevel
  o2_level v =
      if v <! o2_danger
      then some danger
      else if v <! o2_warn
      then some warning
      else if v >! o2_high
      then some warning
      else none

  -- The body of the loop over the other gases, for the level so far.
  raise_level : GasLevel → F → F → F → GasLevel
  raise_level level warn dang v =
      if v >= dang then danger else if v >= warn then max_level level warning else level

  raise_by : GasLevel → F → F → Option F → GasLevel
  unfolding raise_level
  raise_by level warn dang none = level
  raise_by level warn dang (some v) = raise_level level warn dang v

  level_loop : GasReading F → GasLevel → Thresholds F → GasLevel
  unfolding raise_by read_gas
  level_loop r level [] = level
  level_loop r level ((gas, (warn, dang)) ∷ rest) =
      level_loop r (if gas =? "o2" then level else raise_by level warn dang (read_gas r gas)) rest

  o2_start : Option F → GasLevel
  unfolding o2_level
  o2_start none = normal
  o2_start (some v) = elim (o2_level v) [ none ↦ normal | some l ↦ max_level normal l ]

  -- calc_danger_level
  unfoldable pub calc_danger_level : List (ThresholdPolicy F) → GasReading F → GasLevel
  unfolding level_loop o2_start get_thresholds
  calc_danger_level policies r = level_loop r (o2_start r.o2) (get_thresholds policies "실시간 관제")

  -- One gas of the loop of check_threshold_exceeded: its entry, if it exceeds.
  exceeded_one : String → F → F → Option F → List (Exceeded F)
  exceeded_one gas warn dang none = []
  exceeded_one gas warn dang (some v) =
      if v >= dang
      then record { gas = gas; value = v; level = danger } ∷ []
      else if v >= warn
      then record { gas = gas; value = v; level = warning } ∷ []
      else []

  exceeded_loop : GasReading F → Thresholds F → List (Exceeded F)
  unfolding exceeded_one read_gas
  exceeded_loop r [] = []
  exceeded_loop r ((gas, (warn, dang)) ∷ rest) =
      (if gas =? "o2" then [] else exceeded_one gas warn dang (read_gas r gas))
      ++ exceeded_loop r rest

  exceeded_o2 : Option F → List (Exceeded F)
  unfolding o2_level
  exceeded_o2 none = []
  exceeded_o2 (some v) = elim (o2_level v) [
    | none ↦ []
    | some l ↦ record { gas = "o2"; value = v; level = l } ∷ []
  ]

  -- check_threshold_exceeded
  unfoldable pub check_threshold_exceeded :
      List (ThresholdPolicy F) → GasReading F → String → List (Exceeded F)
  unfolding exceeded_loop exceeded_o2 get_thresholds
  check_threshold_exceeded policies r scope =
      exceeded_o2 r.o2 ++ exceeded_loop r (get_thresholds policies scope)
