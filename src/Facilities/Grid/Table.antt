-- ===== src/Facilities/Grid/Table.antt =====
-- facilities/repositories/index_grid_writer.py and index_grid_reader.py: the rows that are created, and
-- the grid that is read from them.
use icmp.Base.{
  ℕ, zero, suc, ◌+◌, ◌≤◌, ◌<◌, ◌≡◌, refl, sym, ap, ◌∙◌, Bool, true, false, not, ◌&&◌, List, [], ◌∷◌,
  ◌++◌, length, map, any, select, select-append, leb, ◌==◌, ==_iff, Bool-cases, inl, inr,
  if◌then◌else◌, arith,
}
use mathlib.Core.List.{append_assoc, append-nil}
use icmp.Facilities.Grid.{
  Cell, IndexGrid, range_from, cell_at, has_cell, index_row, create_rows, insert_cell, by_index,
  next_of,
}

-- The floor has no cell from an index on.
abbrev pub is_free : ℕ → ℕ → List IndexGrid → Bool
is_free floor k rows = not (any (λ r. (r.floor == floor) && leb k r.cell.grid_index) rows)

abbrev pub cells_from : ℕ → ℕ → ℕ → List Cell
cells_from cols k n = map (cell_at cols) (range_from k n)

has_cell-free :
    (floor k : ℕ) (rows : List IndexGrid)
    → is_free floor k rows ≡ true
    → has_cell floor k rows ≡ false
has_cell-free floor k [] h = refl
has_cell-free floor k (r ∷ rs) h = ground (arith, h, has_cell-free floor k rs)

free-next :
    (floor cols k : ℕ) (rows : List IndexGrid)
    → is_free floor k rows ≡ true
    → is_free floor (suc k) (rows ++ (index_row floor (cell_at cols k) ∷ [])) ≡ true
free-next floor cols k [] h = ground arith
free-next floor cols k (r ∷ rs) h = ground (arith, h, free-next floor cols k rs)

-- The rows of a floor that has no cell yet are those of the cells, in their order.
pub create_rows-free :
    (floor cols k n : ℕ) (rows : List IndexGrid)
    → is_free floor k rows ≡ true
    → create_rows floor (cells_from cols k n) rows
      ≡ rows ++ map (index_row floor) (cells_from cols k n)
unfolding create_rows range_from
create_rows-free floor cols k zero rows h = sym (append-nil rows)
create_rows-free floor cols k (suc n) rows h =
    ap
      (λ b.
        create_rows floor (cells_from cols (suc k) n)
          (if b then rows else rows ++ (index_row floor (cell_at cols k) ∷ [])))
      (has_cell-free floor k rows h)
    ∙ create_rows-free floor cols (suc k) n (rows ++ (index_row floor (cell_at cols k) ∷ []))
        (free-next floor cols k rows h)
    ∙ append_assoc rows (index_row floor (cell_at cols k) ∷ [])
        (map (index_row floor) (cells_from cols (suc k) n))

abbrev pub on_floor : ℕ → IndexGrid → Bool
on_floor floor r = r.floor == floor

abbrev pub off_floor : ℕ → IndexGrid → Bool
off_floor floor r = not (r.floor == floor)

pub free-off_floor :
    (floor k : ℕ) (rows : List IndexGrid) → is_free floor k (select (off_floor floor) rows) ≡ true
free-off_floor floor k [] = refl
free-off_floor floor k (r ∷ rs) = ground (arith, free-off_floor floor k rs)

select-off_floor :
    (floor : ℕ) (rows : List IndexGrid)
    → select (on_floor floor) (select (off_floor floor) rows) ≡ []
select-off_floor floor [] = refl
select-off_floor floor (r ∷ rs) = ground (arith, select-off_floor floor rs)

cells-index_row :
    (floor : ℕ) (cs : List Cell)
    → map (λ r. r.cell) (select (on_floor floor) (map (index_row floor) cs)) ≡ cs
cells-index_row floor [] = refl
cells-index_row floor (c ∷ cs) =
    rw ((==_iff floor floor).1 refl) (ap (λ l. c ∷ l) (cells-index_row floor cs))

-- The cells of a floor whose rows were replaced.
pub cells-replaced :
    (floor : ℕ) (cs : List Cell) (rows : List IndexGrid)
    → map
        (λ r. r.cell)
        (select (on_floor floor) (select (off_floor floor) rows ++ map (index_row floor) cs))
      ≡ cs
cells-replaced floor cs rows =
    rw
      (
        select-append (on_floor floor) (select (off_floor floor) rows) (map (index_row floor) cs),
        select-off_floor floor rows,
      )
      (cells-index_row floor cs)

-- The cells of a range are in the order of their indices.
pub by_index-cells : (cols k n : ℕ) → by_index (cells_from cols k n) ≡ cells_from cols k n
unfolding by_index insert_cell range_from
by_index-cells cols k zero = refl
by_index-cells cols k (suc n) = rw (by_index-cells cols (suc k) n) (first n)
  where
    first :
        (m : ℕ)
        → insert_cell (cell_at cols k) (cells_from cols (suc k) m)
          ≡ cell_at cols k ∷ cells_from cols (suc k) m
    first zero = refl
    first (suc m) = ground arith

pub length-cells : (cols k n : ℕ) → length (cells_from cols k n) ≡ n
unfolding range_from
length-cells cols k zero = refl
length-cells cols k (suc n) = ap suc (length-cells cols (suc k) n)

-- The next number after those of a range is above each of them, and no more than a bound of all.
next_of-above : (g : ℕ → ℕ) (k n i : ℕ) → k ≤ i → i < k + n → g i < next_of (map g (range_from k n))
unfolding next_of range_from
next_of-above g k zero i low high = absurd (omega (arith, low, high))
next_of-above g k (suc n) i low high = elim (Bool-cases (i == k)) [
  | inl same ↦
      let eq : i ≡ k = (==_iff i k).0 same in
      let moved : g i ≡ g k = ap g eq in ground (arith, moved)
  | inr other ↦
      let ne : suc k ≤ i = ground (arith, other, low) in
      let ih : g i < next_of (map g (range_from (suc k) n)) =
        next_of-above g (suc k) n i ne (omega (arith, high)) in
      ground (arith, ih)
]

next_of-below :
    (g : ℕ → ℕ) (m k n : ℕ)
    → ((i : ℕ) → k ≤ i → i < k + n → g i < m)
    → next_of (map g (range_from k n)) ≤ m
unfolding next_of range_from
next_of-below g m k zero h = omega arith
next_of-below g m k (suc n) h =
    let ih : next_of (map g (range_from (suc k) n)) ≤ m =
      next_of-below g m (suc k) n (λ i low high. h i (omega (arith, low)) (omega (arith, high))) in
    let here : g k < m = h k (omega arith) (omega arith) in ground (arith, ih, here)

-- So it is a bound that one of them reaches.
pub next_of-range :
    (g : ℕ → ℕ) (m n i : ℕ)
    → ((j : ℕ) → j < n → g j < m)
    → i < n
    → suc (g i) ≡ m
    → next_of (map g (range_from 0 n)) ≡ m
next_of-range g m n i bound inside top =
    let above : g i < next_of (map g (range_from 0 n)) =
      next_of-above g 0 n i (omega arith) (omega (arith, inside)) in
    let below : next_of (map g (range_from 0 n)) ≤ m =
      next_of-below g m 0 n (λ j low high. bound j (omega (arith, high))) in
    omega (arith, above, below, top)
