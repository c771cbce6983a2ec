-- ===== src/Terminal/Scroll.antt =====
-- The loops of `clear` and `scroll`, index by index.
use xenon_os.Base.{ℕ, zero, suc, ◌+◌, ◌-◌, ◌<◌, ◌≡◌, ◌&&◌, leb, ltb, if◌then◌else◌, arith, update}
use xenon_os.Terminal.{
  Terminal, vga_width, vga_height, cell_index, entry, fill_cells, copy_row, copy_rows, scroll,
  newline,
}

pub fill_cells-at :
    (n i blank j : ℕ) (video : ℕ → ℕ)
    → fill_cells n i blank video j ≡ (if leb i j && ltb j (i + n) then blank else video j)
unfolding fill_cells
fill_cells-at zero i blank j video = ground arith
fill_cells-at (suc n) i blank j video =
    ground (arith, fill_cells-at n (i + 1) blank j (update video i blank))

-- The cells of row `y - 1` from column `x` on take those of row `y`.
copy_row-at :
    (n x y j : ℕ) (video : ℕ → ℕ)
    → 0 < y
    → copy_row n x y video j ≡ (
        if leb (cell_index (y - 1) x) j && ltb j (cell_index (y - 1) x + n)
        then video (j + vga_width)
        else video j)
unfolding copy_row
copy_row-at zero x y j video h = ground arith
copy_row-at (suc n) x y j video h = ground (
  arith,
  copy_row-at n (x + 1) y j (update video (cell_index (y - 1) x) (video (cell_index y x))) h,
)

pub copy_rows-at :
    (n y j : ℕ) (video : ℕ → ℕ)
    → 0 < y
    → copy_rows n y video j ≡ (
        if leb (cell_index (y - 1) 0) j && ltb j (cell_index (y - 1 + n) 0)
        then video (j + vga_width)
        else video j)
unfolding copy_rows
copy_rows-at zero y j video h = ground arith
copy_rows-at (suc n) y j video h = ground (
  arith,
  copy_rows-at n (y + 1) j (copy_row vga_width 0 y video),
  copy_row-at vga_width 0 y j video h,
  copy_row-at vga_width 0 y (j + vga_width) video h,
)

-- What newline does to each cell: below the last row nothing moves; on it every row moves up by
-- one, the last row is blanked, and nothing outside the 80 * 25 cells changes.
pub newline-at :
    (t : Terminal) (j : ℕ)
    → (newline t).video j ≡ (
        if ltb (t.row + 1) vga_height
        then t.video j
        else if ltb j (cell_index (vga_height - 1) 0)
        then t.video (j + vga_width)
        else if ltb j (cell_index vga_height 0)
        then entry t.current_color b' '
        else t.video j)
unfolding newline scroll
newline-at t j = ground (
  arith,
  fill_cells-at vga_width (cell_index (vga_height - 1) 0) (entry t.current_color b' ') j
      (copy_rows (vga_height - 1) 1 t.video),
  copy_rows-at (vga_height - 1) 1 j t.video,
)
