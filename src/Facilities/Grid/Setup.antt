-- ===== src/Facilities/Grid/Setup.antt =====
-- facilities/services/floor_grid_maker.py: the grid that is read after a floor's cells were made.
use icmp.Base.{
  ℕ, zero, suc, ◌*◌, ◌/◌, ◌%◌, ◌<◌, ◌≡◌, refl, ap, ◌∙◌, none, List, [], ◌∷◌, ◌++◌, map, select,
  ==_iff, Dict, lookup, delete, lookup-delete, nat_eq, arith,
}
use native.Mathlib.Nat.{mod-lt, mod-eq_of_lt, mul-add-div_right, div-lt_iff_lt-mul, mul_comm}
use icmp.Float.{Float}
use icmp.Facilities.Grid.{
  IndexGrid, index_row, FullGrid, Rounding, Floor, range_from, cell_at, generate, service_of,
  generate_all_cells, bulk_create, delete_by_floor, next_of, grid_of, GridStore, cached,
  get_full_grid, invalidate_all, run_queued, regenerate_index_grid_for_floor,
}
use icmp.Facilities.Grid.Table.{
  off_floor, cells_from, create_rows-free, free-off_floor, cells-replaced, by_index-cells,
  length-cells, next_of-range,
}

-- The whole grid of so many columns and rows.
unfoldable pub whole_grid : ℕ → ℕ → FullGrid
unfolding generate
whole_grid cols rows = record {
  cells = generate (cols * rows) cols;
  cols = cols;
  rows = rows;
  total = cols * rows;
}

map-map-col :
    (cols : ℕ) (is : List ℕ) → map (λ c. c.col) (map (cell_at cols) is) ≡ map (λ i. i % cols) is
map-map-col cols [] = refl
map-map-col cols (i ∷ is) = ap (λ l. i % cols ∷ l) (map-map-col cols is)

map-map-row :
    (cols : ℕ) (is : List ℕ) → map (λ c. c.row) (map (cell_at cols) is) ≡ map (λ i. i / cols) is
map-map-row cols [] = refl
map-map-row cols (i ∷ is) = ap (λ l. i / cols ∷ l) (map-map-row cols is)

next-col :
    (cols rows : ℕ)
    → 0 < cols
    → 0 < rows
    → next_of (map (λ c. c.col) (cells_from cols 0 (cols * rows))) ≡ cols
next-col zero rows p q = absurd (omega arith)
next-col (suc c) rows p q =
    ap next_of (map-map-col (suc c) (range_from 0 (suc c * rows)))
    ∙ next_of-range (λ i. i % suc c) (suc c) (suc c * rows) c (λ j h. mod-lt j p) (grind (arith, q))
        (ap suc (mod-eq_of_lt (omega arith)))

next-row :
    (cols rows : ℕ)
    → 0 < cols
    → 0 < rows
    → next_of (map (λ c. c.row) (cells_from cols 0 (cols * rows))) ≡ rows
next-row cols zero p q = absurd (omega arith)
next-row cols (suc r) p q =
    ap next_of (map-map-row cols (range_from 0 (cols * suc r)))
    ∙ next_of-range (λ i. i / cols) (suc r) (cols * suc r) (r * cols)
        (λ j h. (div-lt_iff_lt-mul p).1 (rw (mul_comm (suc r) cols) h)) (grind (arith, p))
        (grind (arith, p, mul-add-div_right p r 0))

grid_of-replaced :
    (floor cols rows : ℕ) (table : List IndexGrid)
    → 0 < cols
    → 0 < rows
    → grid_of floor
        (select (off_floor floor) table ++ map (index_row floor) (cells_from cols 0 (cols * rows)))
      ≡ whole_grid cols rows
unfolding grid_of whole_grid generate
grid_of-replaced floor cols rows table p q =
    rw
      (
        cells-replaced floor (cells_from cols 0 (cols * rows)) table,
        by_index-cells cols 0 (cols * rows),
        next-col cols rows p q,
        next-row cols rows p q,
        length-cells cols 0 (cols * rows),
      )
      refl

-- A floor that is queued is not in the cache after the queue ran.
lookup-invalidate_none :
    (floor : ℕ) (floors : List ℕ) (cache : Dict ℕ FullGrid)
    → lookup floor cache ≡ none
    → lookup floor (invalidate_all floors cache) ≡ none
unfolding invalidate_all
lookup-invalidate_none floor [] cache h = h
lookup-invalidate_none floor (k ∷ ks) cache h =
    lookup-invalidate_none floor ks (delete k cache)
      (lookup-delete k floor cache ∙ ground (arith, h))

lookup-invalidate_all :
    (floor : ℕ) (floors : List ℕ) (cache : Dict ℕ FullGrid)
    → lookup floor (invalidate_all (floors ++ (floor ∷ [])) cache) ≡ none
unfolding invalidate_all
lookup-invalidate_all floor [] cache =
    lookup-delete floor floor cache ∙ rw ((==_iff floor floor).1 refl) refl
lookup-invalidate_all floor (k ∷ ks) cache = lookup-invalidate_all floor ks (delete k cache)

module _ {F : Type 0} ⦃f : Float F⦄ (rounding : Rounding F) (floor : Floor F) where
  -- Of a floor with a column and a row at least: after its cells were made anew and the queued
  -- invalidations ran, whatever the table, the cache and the queue held before, the reader returns
  -- the whole grid, its cells in the order of the index, with the columns, the rows and the number of
  -- cells that the service computed.
  pub get_full_grid-regenerate :
      (s : GridStore)
      → 0 < (service_of rounding floor).cols
      → 0 < (service_of rounding floor).rows
      → (get_full_grid floor.id (run_queued (regenerate_index_grid_for_floor rounding floor s).0)).0
        ≡ whole_grid (service_of rounding floor).cols (service_of rounding floor).rows
  unfolding get_full_grid cached run_queued regenerate_index_grid_for_floor bulk_create
      delete_by_floor service_of generate_all_cells generate
  get_full_grid-regenerate s p q =
      ap (λ o. (cached floor.id after o).0)
        (lookup-invalidate_all floor.id (s.queued ++ (floor.id ∷ [])) s.cache)
      ∙ ap (grid_of floor.id) (
          create_rows-free floor.id cols 0 (cols * rows) (select (off_floor floor.id) s.table)
            (free-off_floor floor.id 0 s.table))
      ∙ grid_of-replaced floor.id cols rows s.table p q
    where
      cols : ℕ
      cols = (service_of rounding floor).cols

      rows : ℕ
      rows = (service_of rounding floor).rows

      after : GridStore
      after = run_queued (regenerate_index_grid_for_floor rounding floor s).0
