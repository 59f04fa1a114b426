-- ===== src/Facilities/Grid/Bounds.antt =====
-- facilities/services/floor_grid_maker.py: get_grid_index against the bounds of the floor.
use icmp.Base.{
  ℕ, suc, ◌+◌, ◌*◌, ◌≤◌, ◌<◌, ◌≡◌, refl, Bool, true, false, not, Option, none, some, ltb,
  if◌then◌else◌, inl, inr, arith,
}
use native.Mathlib.Nat.{mul-le-mul_right, mul_comm, suc-mul}
use icmp.Float.{Float, IsOrdered, lit}
use icmp.Facilities.Grid.{
  Rounding, Floor, service_of, FloorGridService, Located, nowhere, raised, at_index, is_valid,
  is_out_of_bounds, clamp, index_of, get_grid_index,
}

-- An index below a number; the answers without an index are within any.
abbrev pub is_within : ℕ → Located → Bool
is_within total nowhere = true
is_within total raised = true
is_within total (at_index i) = ltb i total

index_of-within :
    (cols rows : ℕ) (c r : Option ℕ)
    → ((m : ℕ) → c ≡ some m → m < cols)
    → ((m : ℕ) → r ≡ some m → m < rows)
    → is_within (cols * rows) (index_of cols c r) ≡ true
unfolding index_of
index_of-within cols rows none r p q = refl
index_of-within cols rows (some c) none p q = refl
index_of-within cols rows (some c) (some r) p q =
    let in_row : suc r * cols ≤ rows * cols = mul-le-mul_right cols (q r refl) in
    let in_col : c < cols = p c refl in
    let swapped : rows * cols ≡ cols * rows = mul_comm rows cols in
    let next : suc r * cols ≡ r * cols + cols = suc-mul r cols in
    ground (arith, in_row, in_col, swapped, next)

if-within :
    (total : ℕ) (b : Bool) (l : Located)
    → is_within total l ≡ true
    → is_within total (if b then nowhere else l) ≡ true
if-within total true l h = refl
if-within total false l h = h

module _ {F : Type 0} ⦃f : Float F⦄ where
  -- Python's floor division: int() raises for NaN, and the quotient grows with the dividend.
  pub record IsFloorDiv (rounding : Rounding F) : Type 0 where
    pub of_number : (a c : F) (m : ℕ) → rounding.floor_div a c ≡ some m → f.le a a ≡ true
    pub grows :
        (a b c : F) (m n : ℕ)
        → f.le a b ≡ true
        → rounding.floor_div a c ≡ some m
        → rounding.floor_div b c ≡ some n
        → m ≤ n

  -- The quotient of 1e-9 below a side is a number, rounded down, that is below the quotient of the side
  -- rounded up. It holds where a cell is much longer than 1e-9 and the side is short enough for a float
  -- to tell it from 1e-9 below it.
  pub record IsMeasured (rounding : Rounding F) (side cell : F) : Type 0 where
    pub number : f.le (f.sub side (f.decimal 1 9)) (f.sub side (f.decimal 1 9)) ≡ true
    pub top : ℕ
    pub is_top : rounding.floor_div (f.sub side (f.decimal 1 9)) cell ≡ some top
    pub below : top < rounding.ceil_div side cell

  clamp-below :
      (ordered : IsOrdered F) (side x : F)
      → f.le (f.sub side (f.decimal 1 9)) (f.sub side (f.decimal 1 9)) ≡ true
      → f.le (clamp side x) (clamp side x) ≡ true
      → f.le (clamp side x) (f.sub side (f.decimal 1 9)) ≡ true
  unfolding clamp
  clamp-below ordered side x top number = step (f.lt (f.sub side (f.decimal 1 9)) x) refl number
    where
      top_value : F
      top_value = f.sub side (f.decimal 1 9)

      step :
          (b : Bool)
          → f.lt top_value x ≡ b
          → f.le (if b then top_value else x) (if b then top_value else x) ≡ true
          → f.le (if b then top_value else x) top_value ≡ true
      step true h k = top
      step false h k = elim (ordered.le_total x top_value k top) [
        | inl below ↦ below
        | inr above ↦ ground (arith, h, above, ordered.lt_def top_value x)
      ]

  clamp-index :
      (rounding : Rounding F) (side cell x : F) (m : ℕ)
      → IsOrdered F
      → IsFloorDiv rounding
      → (k : IsMeasured rounding side cell) → rounding.floor_div (clamp side x) cell ≡ some m
      → m < rounding.ceil_div side cell
  clamp-index rounding side cell x m ordered division k h =
      let small =
        clamp-below ordered side x k.number (division.of_number (clamp side x) cell m h) in
      let most : m ≤ k.top =
        division.grows (clamp side x) (f.sub side (f.decimal 1 9)) cell m k.top small h k.is_top in
      omega (arith, most, k.below)

  -- Where the order of the floats is IEEE 754's, floor division is Python's, and 1e-9 below the width,
  -- and below the length, rounds down to less than the whole side rounds up to: an index that
  -- get_grid_index returns, for any coordinates, is one of the service's cells.
  pub get_grid_index-within :
      (rounding : Rounding F) (floor : Floor F) (x y : F)
      → IsOrdered F
      → IsFloorDiv rounding
      → IsMeasured rounding (lit floor.width) floor.cell_size
      → IsMeasured rounding (lit floor.length_m) floor.cell_size
      → is_within
          (service_of rounding floor).total_cells
          (get_grid_index rounding (service_of rounding floor) x y)
        ≡ true
  unfolding get_grid_index service_of
  get_grid_index-within rounding floor x y ordered division wide long =
      if-within _ (not (is_valid x y)) _ (
        if-within _ (is_out_of_bounds s x y) _ (
          index_of-within s.cols s.rows _ _
            (λ m h. clamp-index rounding s.width_m s.cell_size x m ordered division wide h)
            (λ m h. clamp-index rounding s.length_m s.cell_size y m ordered division long h)))
    where
      s : FloorGridService F
      s = service_of rounding floor
