-- ===== src/Facilities/Grid.antt =====
-- facilities/services/floor_grid_maker.py and grid_*.py, facilities/repositories, facilities/cache.py:
-- the cells of a floor, their table, and the cache of a floor's grid.
pub mod Index
pub mod Table
pub mod Setup
pub mod Repeat
pub mod Bounds
use icmp.Base.{
  ℕ, zero, suc, ◌+◌, ◌*◌, ◌/◌, ◌%◌, Bool, true, false, not, ◌||◌, ◌&&◌, Option, none, some, List,
  [], ◌∷◌, ◌++◌, length, map, select, any, leb, ltb, ◌==◌, if◌then◌else◌, Dict, lookup, insert,
  delete, nat_eq,
}
use icmp.Float.{Float, lit, ◌<=◌, ◌<!◌, ◌>!◌}

pub record Cell : Type 0 where
  pub grid_index : ℕ
  pub col : ℕ
  pub row : ℕ

-- A row of the table IndexGrid.
pub record IndexGrid : Type 0 where
  pub floor : ℕ
  pub cell : Cell

-- The grid of a floor, as the reader returns it.
pub record FullGrid : Type 0 where
  pub cells : List Cell
  pub cols : ℕ
  pub rows : ℕ
  pub total : ℕ

-- Python's conversions between the two kinds of numbers: `floor_div a b` is int(a // b) for 0 <= a,
-- `none` where it raises, and `ceil_div a b` is math.ceil(a / b) for 0 <= a and 0 < b.
pub record Rounding (F : Type 0) : Type 0 where
  pub floor_div : F → F → Option ℕ
  pub ceil_div : F → F → ℕ

-- A floor with its FloorGrid.
pub record Floor (F : Type 0) : Type 0 where
  pub id : ℕ
  pub width : ℕ
  pub length_m : ℕ
  pub cell_size : F

pub record FloorGridService (F : Type 0) : Type 0 where
  pub width_m : F
  pub length_m : F
  pub cell_size : F
  pub cols : ℕ
  pub rows : ℕ
  pub total_cells : ℕ

-- What get_grid_index answers: None, an index, or an exception of the conversion to int.
pub data Located : Type 0 where
  nowhere raised : Located
  at_index : ℕ → Located

-- GridCoordinateToIndex.to_index
abbrev pub to_index : ℕ → ℕ → ℕ → ℕ
to_index cols col row = row * cols + col

-- GridIndexToCoordinate.to_col_row, for cols > 0
abbrev pub to_col_row : ℕ → ℕ → ℕ × ℕ
to_col_row cols index = (index % cols, index / cols)

-- range(first, first + n)
unfoldable pub range_from : ℕ → ℕ → List ℕ
range_from first zero = []
range_from first (suc n) = first ∷ range_from (suc first) n

abbrev pub cell_at : ℕ → ℕ → Cell
cell_at cols index = record { grid_index = index; col = index % cols; row = index / cols }

-- GridCellGenerator.generate
unfoldable pub generate : ℕ → ℕ → List Cell
unfolding range_from
generate total_cells cols = map (cell_at cols) (range_from 0 total_cells)

-- to_index(to_col_row(x, y)), where int() does not raise
index_of : ℕ → Option ℕ → Option ℕ → Located
index_of cols (some col) (some row) = at_index (to_index cols col row)
index_of cols _ _ = raised

module _ {F : Type 0} ⦃f : Float F⦄ where
  -- FloorGridService.__init__
  unfoldable pub service_of : Rounding F → Floor F → FloorGridService F
  service_of rounding floor =
      let cols = rounding.ceil_div (lit floor.width) floor.cell_size in
      let rows = rounding.ceil_div (lit floor.length_m) floor.cell_size in
      record {
        width_m = lit floor.width;
        length_m = lit floor.length_m;
        cell_size = floor.cell_size;
        cols = cols;
        rows = rows;
        total_cells = cols * rows;
      }

  unfoldable pub generate_all_cells : FloorGridService F → List Cell
  unfolding generate
  generate_all_cells service = generate service.total_cells service.cols

  -- GridValidator.validate
  abbrev pub is_valid : F → F → Bool
  is_valid x y = not (x <! lit 0 || y <! lit 0)

  -- GridBoundaryHandler.is_out_of_bounds
  abbrev pub is_out_of_bounds : FloorGridService F → F → F → Bool
  is_out_of_bounds s x y = x >! s.width_m || y >! s.length_m

  -- min(x, m - 1e-9): Python's `min` keeps the first of two that tie.
  unfoldable pub clamp : F → F → F
  clamp m x = let top = f.sub m (f.decimal 1 9) in if top <! x then top else x

  -- get_grid_index
  unfoldable pub get_grid_index : Rounding F → FloorGridService F → F → F → Located
  unfolding index_of clamp
  get_grid_index rounding s x y =
      if not (is_valid x y)
      then nowhere
      else if is_out_of_bounds s x y
      then nowhere
      else index_of s.cols (rounding.floor_div (clamp s.width_m x) s.cell_size)
          (rounding.floor_div (clamp s.length_m y) s.cell_size)

-- The table, the cache of the grids by floor, and the floors whose handle_floor_grid_changed is queued.
pub record GridStore : Type 0 where
  pub table : List IndexGrid
  pub cache : Dict ℕ FullGrid
  pub queued : List ℕ

-- unique_together (floor, grid_index)
abbrev pub has_cell : ℕ → ℕ → List IndexGrid → Bool
has_cell floor index rows = any (λ r. (r.floor == floor) && (r.cell.grid_index == index)) rows

abbrev pub index_row : ℕ → Cell → IndexGrid
index_row floor cell = record { floor = floor; cell = cell }

-- The rows that bulk_create(ignore_conflicts=True) leaves.
unfoldable pub create_rows : ℕ → List Cell → List IndexGrid → List IndexGrid
create_rows floor [] rows = rows
create_rows floor (c ∷ cs) rows =
    create_rows floor cs
      (if has_cell floor c.grid_index rows then rows else rows ++ (index_row floor c ∷ []))

-- IndexGridWriter.bulk_create
unfoldable pub bulk_create : ℕ → List Cell → GridStore → GridStore
unfolding create_rows
bulk_create floor cells s = record s {
  table = create_rows floor cells s.table;
  queued = s.queued ++ (floor ∷ []);
}

-- IndexGridWriter.delete_by_floor
unfoldable pub delete_by_floor : ℕ → GridStore → GridStore
delete_by_floor floor s = record s {
  table = select (λ r. not (r.floor == floor)) s.table;
  queued = s.queued ++ (floor ∷ []);
}

-- order_by("grid_index")
insert_cell : Cell → List Cell → List Cell
insert_cell c [] = c ∷ []
insert_cell c (d ∷ ds) =
    let rest = insert_cell c ds in if leb c.grid_index d.grid_index then c ∷ d ∷ ds else d ∷ rest

unfoldable pub by_index : List Cell → List Cell
unfolding insert_cell
by_index [] = []
by_index (c ∷ cs) = insert_cell c (by_index cs)

-- max(…) + 1 of numbers, and 0 of none
unfoldable pub next_of : List ℕ → ℕ
next_of [] = 0
next_of (n ∷ ns) = let m = next_of ns in if leb m n then suc n else m

-- The grid of a floor from its rows.
unfoldable pub grid_of : ℕ → List IndexGrid → FullGrid
unfolding by_index next_of
grid_of floor rows =
    let cells = by_index (map (λ r. r.cell) (select (λ r. r.floor == floor) rows)) in
    record {
      cells = cells;
      cols = next_of (map (λ c. c.col) cells);
      rows = next_of (map (λ c. c.row) cells);
      total = length cells;
    }

cached : ℕ → GridStore → Option FullGrid → FullGrid × GridStore
unfolding grid_of
cached floor s (some g) = (g, s)
cached floor s none =
    (grid_of floor s.table, record s { cache = insert floor (grid_of floor s.table) s.cache })

-- IndexGridReader.get_full_grid; `none` in the cache may be an entry that expired.
unfoldable pub get_full_grid : ℕ → GridStore → FullGrid × GridStore
unfolding cached
get_full_grid floor s = cached floor s (lookup floor s.cache)

-- handle_floor_grid_changed for the queued floors, oldest first
unfoldable pub invalidate_all : List ℕ → Dict ℕ FullGrid → Dict ℕ FullGrid
invalidate_all [] cache = cache
invalidate_all (floor ∷ floors) cache = invalidate_all floors (delete floor cache)

unfoldable pub run_queued : GridStore → GridStore
unfolding invalidate_all
run_queued s = record s { cache = invalidate_all s.queued s.cache; queued = [] }

module _ {F : Type 0} ⦃f : Float F⦄ where
  -- setup_index_grid_for_floor, and the count it returns
  unfoldable pub setup_index_grid_for_floor : Rounding F → Floor F → GridStore → GridStore × ℕ
  unfolding service_of generate_all_cells bulk_create
  setup_index_grid_for_floor rounding floor s =
      let cells = generate_all_cells (service_of rounding floor) in
      (bulk_create floor.id cells s, length cells)

  -- regenerate_index_grid_for_floor
  unfoldable pub regenerate_index_grid_for_floor : Rounding F → Floor F → GridStore → GridStore × ℕ
  unfolding service_of generate_all_cells bulk_create delete_by_floor
  regenerate_index_grid_for_floor rounding floor s =
      let cells = generate_all_cells (service_of rounding floor) in
      (bulk_create floor.id cells (delete_by_floor floor.id s), length cells)
