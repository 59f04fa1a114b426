-- ===== src/Examples/Grids.antt =====
-- A floor of nine by four with cells of two.
use icmp.Base.{ℕ, ◌≡◌, refl, ◌+◌, ◌/◌, ◌≤◌, true, some, none, Option, [], arith}
use icmp.Float.Fixed.{Fixed, plus, minus, fixed_float, Fixed-IsOrdered, whole}
use icmp.Facilities.Grid.{
  Rounding, Floor, GridStore, service_of, to_index, to_col_row, get_grid_index, get_full_grid,
  run_queued, regenerate_index_grid_for_floor,
}
use icmp.Facilities.Grid.Index.{to_index-to_col_row}
use icmp.Facilities.Grid.Setup.{whole_grid, get_full_grid-regenerate}
use icmp.Facilities.Grid.Bounds.{IsFloorDiv, IsMeasured, is_within, get_grid_index-within}

-- The quotients by two.
abbrev floor_half : Fixed → Option ℕ
floor_half (some (plus n)) = some (n / 2000)
floor_half _ = none

abbrev ceil_half : Fixed → ℕ
ceil_half (some (plus n)) = (n + 1999) / 2000
ceil_half _ = 0

abbrev rounding : Rounding Fixed
rounding = record { floor_div = λ a b. floor_half a; ceil_div = λ a b. ceil_half a }

abbrev floor : Floor Fixed
floor = record { id = 1; width = 9; length_m = 5; cell_size = whole 2 }

abbrev store : GridStore
store = record { table = []; cache = []; queued = [] }

to_index-to_col_row_example :
    (to_index 5 (to_col_row 5 13).0 (to_col_row 5 13).1 ≡ 13)
    × (to_col_row 5 (to_index 5 3 2) ≡ (3, 2))
to_index-to_col_row_example = to_index-to_col_row 5 13 3 2 (omega arith)

get_full_grid-regenerate_example :
    (get_full_grid 1 (run_queued (regenerate_index_grid_for_floor rounding floor store).0)).0
    ≡ whole_grid (service_of rounding floor).cols (service_of rounding floor).rows
get_full_grid-regenerate_example =
    get_full_grid-regenerate rounding floor store (unfold service_of in omega arith)
      (unfold service_of in omega arith)

number_half : (a : Fixed) (m : ℕ) → floor_half a ≡ some m → fixed_float.le a a ≡ true
number_half none m h = absurd (ground (arith, h))
number_half (some (plus n)) m h = ground arith
number_half (some (minus n)) m h = absurd (ground (arith, h))

grows_half :
    (a b : Fixed) (m n : ℕ)
    → fixed_float.le a b ≡ true
    → floor_half a ≡ some m
    → floor_half b ≡ some n
    → m ≤ n
grows_half none b m n h p q = absurd (ground (arith, p))
grows_half (some (minus i)) b m n h p q = absurd (ground (arith, p))
grows_half (some (plus i)) none m n h p q = absurd (ground (arith, q))
grows_half (some (plus i)) (some (minus j)) m n h p q = absurd (ground (arith, q))
grows_half (some (plus i)) (some (plus j)) m n h p q =
    let small : i ≤ j = ground (arith, h) in
    let low : i / 2000 ≡ m = ground (arith, p) in
    let high : j / 2000 ≡ n = ground (arith, q) in omega (arith, small, low, high)

division : IsFloorDiv rounding
division = record { of_number = λ a c. number_half a; grows = λ a b c. grows_half a b }

wide : IsMeasured rounding (whole 9) (whole 2)
wide = record { number = refl; top = 4; is_top = refl; below = omega arith }

long : IsMeasured rounding (whole 5) (whole 2)
long = record { number = refl; top = 2; is_top = refl; below = omega arith }

get_grid_index-within_example :
    is_within
      (service_of rounding floor).total_cells
      (get_grid_index rounding (service_of rounding floor) (whole 9) (whole 3))
    ≡ true
get_grid_index-within_example =
    get_grid_index-within rounding floor (whole 9) (whole 3) Fixed-IsOrdered division wide long
