-- ===== src/Facilities/Grid/Repeat.antt =====
-- facilities/services/floor_grid_maker.py: a setup that is repeated.
use icmp.Base.{
  ℕ, ◌≡◌, refl, ap, ◌∙◌, Bool, true, false, ◌&&◌, List, [], ◌∷◌, ◌++◌, all, if◌then◌else◌, arith,
}
use icmp.Float.{Float}
use icmp.Facilities.Grid.{
  Cell, IndexGrid, index_row, has_cell, Rounding, Floor, service_of, generate_all_cells,
  create_rows, bulk_create, GridStore, setup_index_grid_for_floor,
}

has_cell-append :
    (floor i : ℕ) (rows : List IndexGrid) (c : Cell)
    → has_cell floor i rows ≡ true
    → has_cell floor i (rows ++ (index_row floor c ∷ [])) ≡ true
has_cell-append floor i [] c h = absurd (ground (arith, h))
has_cell-append floor i (r ∷ rs) c h = ground (arith, h, has_cell-append floor i rs c)

has_cell-new :
    (floor : ℕ) (rows : List IndexGrid) (c : Cell)
    → has_cell floor c.grid_index (rows ++ (index_row floor c ∷ [])) ≡ true
has_cell-new floor [] c = ground arith
has_cell-new floor (r ∷ rs) c = ground (arith, has_cell-new floor rs c)

-- The rows after one cell.
abbrev with_cell : ℕ → Cell → List IndexGrid → List IndexGrid
with_cell floor c rows =
    if has_cell floor c.grid_index rows then rows else rows ++ (index_row floor c ∷ [])

has_cell-with :
    (floor i : ℕ) (c : Cell) (rows : List IndexGrid)
    → has_cell floor i rows ≡ true
    → has_cell floor i (with_cell floor c rows) ≡ true
has_cell-with floor i c rows h = step (has_cell floor c.grid_index rows)
  where
    step :
        (b : Bool) → has_cell floor i (if b then rows else rows ++ (index_row floor c ∷ [])) ≡ true
    step true = h
    step false = has_cell-append floor i rows c h

has_cell-with_self :
    (floor : ℕ) (c : Cell) (rows : List IndexGrid)
    → has_cell floor c.grid_index (with_cell floor c rows) ≡ true
has_cell-with_self floor c rows = step (has_cell floor c.grid_index rows) refl
  where
    step :
        (b : Bool)
        → has_cell floor c.grid_index rows ≡ b
        → has_cell floor c.grid_index (if b then rows else rows ++ (index_row floor c ∷ [])) ≡ true
    step true h = h
    step false h = has_cell-new floor rows c

has_cell-create_rows :
    (floor i : ℕ) (cs : List Cell) (rows : List IndexGrid)
    → has_cell floor i rows ≡ true
    → has_cell floor i (create_rows floor cs rows) ≡ true
unfolding create_rows
has_cell-create_rows floor i [] rows h = h
has_cell-create_rows floor i (c ∷ cs) rows h =
    has_cell-create_rows floor i cs (with_cell floor c rows) (has_cell-with floor i c rows h)

-- Every cell has a row.
abbrev has_all : ℕ → List Cell → List IndexGrid → Bool
has_all floor cs rows = all (λ c. has_cell floor c.grid_index rows) cs

both : (a b : Bool) → a ≡ true → b ≡ true → (a && b) ≡ true
both a b p q = ground (arith, p, q)

has_all-create_rows :
    (floor : ℕ) (cs : List Cell) (rows : List IndexGrid)
    → has_all floor cs (create_rows floor cs rows) ≡ true
unfolding create_rows
has_all-create_rows floor [] rows = refl
has_all-create_rows floor (c ∷ cs) rows =
    both _ _
      (has_cell-create_rows floor c.grid_index cs (with_cell floor c rows)
        (has_cell-with_self floor c rows))
      (has_all-create_rows floor cs (with_cell floor c rows))

create_rows-all :
    (floor : ℕ) (cs : List Cell) (rows : List IndexGrid)
    → has_all floor cs rows ≡ true
    → create_rows floor cs rows ≡ rows
unfolding create_rows
create_rows-all floor [] rows h = refl
create_rows-all floor (c ∷ cs) rows h =
    let here : has_cell floor c.grid_index rows ≡ true = ground (arith, h) in
    let rest : has_all floor cs rows ≡ true = ground (arith, h) in
    ap (λ b. create_rows floor cs (if b then rows else rows ++ (index_row floor c ∷ []))) here
    ∙ create_rows-all floor cs rows rest

module _ {F : Type 0} ⦃f : Float F⦄ (rounding : Rounding F) (floor : Floor F) where
  -- A second setup of a floor creates no row and changes none, and returns the count of the first.
  pub setup_index_grid_for_floor-twice :
      (s : GridStore)
      → ((setup_index_grid_for_floor rounding floor
            (setup_index_grid_for_floor rounding floor s).0).0.table
          ≡ (setup_index_grid_for_floor rounding floor s).0.table)
        × ((setup_index_grid_for_floor rounding floor
              (setup_index_grid_for_floor rounding floor s).0).1
            ≡ (setup_index_grid_for_floor rounding floor s).1)
  unfolding setup_index_grid_for_floor bulk_create
  setup_index_grid_for_floor-twice s =
      let cells = generate_all_cells (service_of rounding floor) in
      (
        create_rows-all floor.id cells (create_rows floor.id cells s.table)
            (has_all-create_rows floor.id cells s.table),
        refl,
      )
