-- ===== src/Facilities/Grid/Index.antt =====
-- facilities/services/grid_*.py: the index of a cell against its column and row.
use icmp.Base.{ℕ, ◌+◌, ◌<◌, ◌≡◌, refl, arith}
use native.Mathlib.Nat.{
  div-add-mod', mod-eq_of_lt, mul-add-mod_self_right, mul-add-div_right, div-eq_of_lt,
}
use icmp.Facilities.Grid.{to_index, to_col_row}

-- Of a grid with a column at least: the column and the row of an index give the index back, and a
-- column of the grid and a row give an index whose column and row they are.
pub to_index-to_col_row :
    (cols index col row : ℕ)
    → col < cols
    → (to_index cols (to_col_row cols index).0 (to_col_row cols index).1 ≡ index)
      × (to_col_row cols (to_index cols col row) ≡ (col, row))
to_index-to_col_row cols index col row h =
    let positive : 0 < cols = omega arith in
    let no_more : row + 0 ≡ row = omega arith in
    (
      div-add-mod' index cols,
      rw
          (
            mul-add-mod_self_right row cols col,
            mod-eq_of_lt h,
            mul-add-div_right positive row col,
            div-eq_of_lt h,
            no_more,
          )
          refl,
    )
