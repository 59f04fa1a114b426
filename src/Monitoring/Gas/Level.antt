-- ===== src/Monitoring/Gas/Level.antt =====
-- monitoring/services.py: the level of a reading against the list of the gases that exceed.
use icmp.Base.{
  String, ◌≡◌, refl, sym, ap, ◌∙◌, Bool, true, false, Option, none, some, List, [], ◌∷◌, ◌++◌,
  if◌then◌else◌, string_eq, ◌=?◌, arith,
}
use icmp.Float.{Float}
use icmp.Monitoring.Types.{GasReading, ThresholdPolicy, read_gas}
use icmp.Monitoring.Gas.{
  GasLevel, normal, warning, danger, max_level, Exceeded, Thresholds, calc_danger_level,
  check_threshold_exceeded, level_loop, raise_level, raise_by, o2_start, exceeded_loop,
  exceeded_one, exceeded_o2, get_thresholds,
}

-- The gravest level of a list.
pub worst : {F : Type 0} → GasLevel → List (Exceeded F) → GasLevel
worst l [] = l
worst l (e ∷ es) = worst (max_level l e.level) es

module _ {F : Type 0} ⦃f : Float F⦄ where
  worst-append :
      (l : GasLevel) (xs ys : List (Exceeded F)) → worst l (xs ++ ys) ≡ worst (worst l xs) ys
  unfolding worst
  worst-append l [] ys = refl
  worst-append l (x ∷ xs) ys = worst-append (max_level l x.level) xs ys

  worst-exceeded_one :
      (l : GasLevel) (gas : String) (w d : F) (v : F)
      → raise_level l w d v ≡ worst l (exceeded_one gas w d (some v))
  unfolding raise_level exceeded_one worst
  worst-exceeded_one normal gas w d v = ground arith
  worst-exceeded_one warning gas w d v = ground arith
  worst-exceeded_one danger gas w d v = ground arith

  raise_by-worst :
      (l : GasLevel) (gas : String) (w d : F) (o : Option F)
      → raise_by l w d o ≡ worst l (exceeded_one gas w d o)
  unfolding raise_by
  raise_by-worst l gas w d none = unfold worst exceeded_one in refl
  raise_by-worst l gas w d (some v) = worst-exceeded_one l gas w d v

  entry-worst :
      (skipped : Bool) (l : GasLevel) (gas : String) (w d : F) (o : Option F)
      → (if skipped then l else raise_by l w d o)
        ≡ worst l (if skipped then [] else exceeded_one gas w d o)
  entry-worst true l gas w d o = unfold worst in refl
  entry-worst false l gas w d o = raise_by-worst l gas w d o

  level_loop-worst :
      (r : GasReading F) (l : GasLevel) (t : Thresholds F)
      → level_loop r l t ≡ worst l (exceeded_loop r t)
  unfolding level_loop exceeded_loop
  level_loop-worst r l [] = unfold worst in refl
  level_loop-worst r l ((gas, (w, d)) ∷ rest) =
      ap (λ k. level_loop r k rest) (entry-worst (gas =? "o2") l gas w d (read_gas r gas))
      ∙ level_loop-worst r
          (worst l (if gas =? "o2" then [] else exceeded_one gas w d (read_gas r gas))) rest
      ∙ sym (
          worst-append l (if gas =? "o2" then [] else exceeded_one gas w d (read_gas r gas))
            (exceeded_loop r rest))

  start-worst : (o : Option F) → o2_start o ≡ worst normal (exceeded_o2 o)
  unfolding o2_start exceeded_o2 worst
  start-worst none = refl
  start-worst (some v) = ground arith

  -- The level of a reading is the gravest level among the gases that exceed, and NORMAL if none does:
  -- the two routines, which walk the same limits apart from each other, never disagree.
  pub calc_danger_level-eq_worst :
      (policies : List (ThresholdPolicy F)) (r : GasReading F)
      → calc_danger_level policies r ≡ worst normal (check_threshold_exceeded policies r "실시간 관제")
  unfolding calc_danger_level check_threshold_exceeded
  calc_danger_level-eq_worst policies r =
      level_loop-worst r (o2_start r.o2) (get_thresholds policies "실시간 관제")
      ∙ ap (λ l. worst l (exceeded_loop r (get_thresholds policies "실시간 관제"))) (start-worst r.o2)
      ∙ sym (
          worst-append normal (exceeded_o2 r.o2)
            (exceeded_loop r (get_thresholds policies "실시간 관제")))
