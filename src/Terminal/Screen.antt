-- ===== src/Terminal/Screen.antt =====
-- The console as a grid of characters that scrolls: terminal.c refines it.
use xenon_os.Base.{
  ℕ, ◌+◌, ◌-◌, ◌*◌, ◌≤◌, ◌<◌, ◌≡◌, refl, ◌&&◌, leb, ltb, ◌==◌, if◌then◌else◌, arith, update, true,
  false, ◌∙◌, List, [], ◌∷◌, Bool-cases, inl, inr,
}
use xenon_os.Terminal.{
  Terminal, vga_width, vga_height, cell_index, entry, scroll, newline, putchar_nocursor,
  update_cursor, terminal_backspace, erase, put_string, terminal_write,
}
use xenon_os.Terminal.Scroll.{newline-at}

-- The specification: 25 rows of 80 cells, each with its colour, and a cursor.
pub record Grid : Type 0 where
  pub cell : ℕ → ℕ → ℕ
  pub row : ℕ
  pub column : ℕ
  pub color : ℕ

-- One character cell is replaced.
abbrev put_cell : (ℕ → ℕ → ℕ) → ℕ → ℕ → ℕ → ℕ → ℕ → ℕ
put_cell cell r c v i j = if i == r && j == c then v else cell i j

-- A new line moves the cursor down; on the last row the grid moves up instead.
pub break_line : Grid → Grid
break_line g =
    if ltb (g.row + 1) vga_height then record g { row = g.row + 1; column = 0 } else record g {
      cell = λ i j. if ltb i (vga_height - 1) then g.cell (i + 1) j else entry g.color b' ';
      column = 0;
    }

pub type_char : ℕ → Grid → Grid
type_char c g =
    let g' = record g { cell = put_cell g.cell g.row g.column (entry g.color c) } in
    if c == b'\n'
    then break_line g
    else if ltb (g.column + 1) vga_width
    then record g' { column = g.column + 1 }
    else break_line g'

pub type_string : List ℕ → Grid → Grid
type_string [] g = g
type_string (c ∷ str) g = type_string str (type_char c g)

-- Back one cell, over the end of the line before if need be, and blank it.
pub back_space : Grid → Grid
back_space g =
    if g.column == 0 && g.row == 0
    then g
    else if ltb 0 g.column
    then record g {
      cell = put_cell g.cell g.row (g.column - 1) (entry g.color b' ');
      column = g.column - 1;
    }
    else record g {
      cell = put_cell g.cell (g.row - 1) (vga_width - 1) (entry g.color b' ');
      row = g.row - 1;
      column = vga_width - 1;
    }

-- The cursor is on the screen.
pub record OnScreen (t : Terminal) : Type 0 where
  pub row_in : t.row < vga_height
  pub column_in : t.column < vga_width

-- The terminal shows the grid, but for the column of the cursor.
pub record ShowsRows (t : Terminal) (g : Grid) : Type 0 where
  pub same_row : t.row ≡ g.row
  pub same_color : t.current_color ≡ g.color
  pub same_cells :
      (r c : ℕ) → r < vga_height → c < vga_width → t.video (cell_index r c) ≡ g.cell r c

pub record Shows (t : Terminal) (g : Grid) : Type 0 where
  pub rows : ShowsRows t g
  pub same_column : t.column ≡ g.column

-- The video memory of the console and nothing else changes.
abbrev pub InBounds : Terminal → Terminal → Type 0
InBounds t t' = (j : ℕ) → vga_width * vga_height ≤ j → t'.video j ≡ t.video j

pub newline-OnScreen : (t : Terminal) → t.row < vga_height → OnScreen (newline t)
unfolding newline scroll
newline-OnScreen t h = ground arith

pub newline-color : (t : Terminal) → (newline t).current_color ≡ t.current_color
unfolding newline scroll
newline-color t = ground arith

pub newline-InBounds : (t : Terminal) → t.row < vga_height → InBounds t (newline t)
newline-InBounds t s j h = ground (arith, newline-at t j)

break_line-cell :
    (g : Grid) (i j : ℕ)
    → (break_line g).cell i j ≡ (
        if ltb (g.row + 1) vga_height
        then g.cell i j
        else if ltb i (vga_height - 1)
        then g.cell (i + 1) j
        else entry g.color b' ')
unfolding break_line
break_line-cell g i j = ground arith

newline-Shows :
    {t : Terminal} {g : Grid}
    → t.row < vga_height
    → ShowsRows t g
    → Shows (newline t) (break_line g)
newline-Shows {t} {g} s v = record {
  rows = record {
    same_row = unfold newline scroll break_line in ground (arith, v.same_row);
    same_color = unfold newline scroll break_line in ground (arith, v.same_color);
    same_cells = λ r c p q. ground (
      arith,
      newline-at t (cell_index r c),
      break_line-cell g r c,
      v.same_row,
      v.same_color,
      v.same_cells r c,
      v.same_cells (r + 1) c,
    );
  };
  same_column = unfold newline scroll break_line in ground arith;
}

-- The state after the character is stored, before the line is broken.
abbrev stored : ℕ → Terminal → Terminal
stored c t = record t {
  video = update t.video (cell_index t.row t.column) (entry t.current_color c);
  column = t.column + 1;
}

stored-ShowsRows :
    (c : ℕ) {t : Terminal} {g : Grid}
    → OnScreen t
    → Shows t g
    → ShowsRows (stored c t) (record g { cell = put_cell g.cell g.row g.column (entry g.color c) })
stored-ShowsRows c {t} {g} s v = record {
  same_row = v.rows.same_row;
  same_color = v.rows.same_color;
  same_cells = λ r j p q.
      ground (arith, v.rows.same_cells r j, v.rows.same_row, v.rows.same_color, v.same_column);
}

pub putchar_nocursor-OnScreen :
    (c : ℕ) {t : Terminal} → OnScreen t → OnScreen (putchar_nocursor c t)
unfolding putchar_nocursor
putchar_nocursor-OnScreen c {t} s =
    ground (arith, newline-OnScreen t, newline-OnScreen (stored c t))

pub putchar_nocursor-InBounds :
    (c : ℕ) (t : Terminal) → OnScreen t → InBounds t (putchar_nocursor c t)
unfolding putchar_nocursor
putchar_nocursor-InBounds c t s j h =
    ground (arith, newline-InBounds t s.row_in j h, newline-InBounds (stored c t) s.row_in j h)

pub putchar_nocursor-Shows :
    (c : ℕ) {t : Terminal} {g : Grid}
    → OnScreen t
    → Shows t g
    → Shows (putchar_nocursor c t) (type_char c g)
putchar_nocursor-Shows c {t} {g} s v =
    let rows = stored-ShowsRows c s v in
    elim (Bool-cases (c == b'\n')) [
      | inl is_newline ↦
          unfold putchar_nocursor type_char in rw is_newline (newline-Shows s.row_in v.rows)
      | inr printed ↦ elim (Bool-cases (ltb (g.column + 1) vga_width)) [
        | inl fits ↦
            let stays : leb vga_width (t.column + 1) ≡ false = ground (arith, v.same_column) in
            unfold putchar_nocursor type_char in
            rw (printed, fits, stays)
              (record {
                rows = record {
                  same_row = rows.same_row;
                  same_color = rows.same_color;
                  same_cells = rows.same_cells;
                };
                same_column = omega (arith, v.same_column);
              })
        | inr ends ↦
            let breaks : leb vga_width (t.column + 1) ≡ true = ground (arith, v.same_column) in
            unfold putchar_nocursor type_char in
            rw (printed, ends, breaks) (newline-Shows s.row_in rows)
      ]
    ]

pub put_string-OnScreen : (str : List ℕ) {t : Terminal} → OnScreen t → OnScreen (put_string str t)
unfolding put_string
put_string-OnScreen [] s = s
put_string-OnScreen (c ∷ str) s = put_string-OnScreen str (putchar_nocursor-OnScreen c s)

pub put_string-InBounds : (str : List ℕ) (t : Terminal) → OnScreen t → InBounds t (put_string str t)
unfolding put_string
put_string-InBounds [] t s j h = refl
put_string-InBounds (c ∷ str) t s j h =
    put_string-InBounds str (putchar_nocursor c t) (putchar_nocursor-OnScreen c s) j h
    ∙ putchar_nocursor-InBounds c t s j h

put_string-Shows :
    (str : List ℕ) {t : Terminal} {g : Grid}
    → OnScreen t
    → Shows t g
    → Shows (put_string str t) (type_string str g)
unfolding put_string type_string
put_string-Shows [] s v = v
put_string-Shows (c ∷ str) s v =
    put_string-Shows str (putchar_nocursor-OnScreen c s) (putchar_nocursor-Shows c s v)

cursor-Shows : {t : Terminal} {g : Grid} → Shows t g → Shows (update_cursor t) g
unfolding update_cursor
cursor-Shows v = record {
  rows = record {
    same_row = v.rows.same_row;
    same_color = v.rows.same_color;
    same_cells = v.rows.same_cells;
  };
  same_column = v.same_column;
}

pub cursor-OnScreen : {t : Terminal} → OnScreen t → OnScreen (update_cursor t)
unfolding update_cursor
cursor-OnScreen s = record { row_in = s.row_in; column_in = s.column_in }

-- terminal_write refines typing the string on the grid, keeps the cursor on the screen, and writes
-- no video memory beyond the 80 * 25 cells.
pub terminal_write_refines :
    (str : List ℕ) {t : Terminal} {g : Grid}
    → OnScreen t
    → Shows t g
    → Shows (terminal_write str t) (type_string str g)
      × OnScreen (terminal_write str t)
      × InBounds t (terminal_write str t)
unfolding terminal_write
terminal_write_refines str {t} s v = (
  cursor-Shows (put_string-Shows str s v),
  cursor-OnScreen (put_string-OnScreen str s),
  unfold update_cursor in put_string-InBounds str t s,
)

-- terminal_backspace refines stepping back one cell and blanking it, keeps the cursor on the
-- screen, and writes no video memory beyond the 80 * 25 cells.
pub terminal_backspace_refines :
    {t : Terminal} {g : Grid}
    → OnScreen t
    → Shows t g
    → Shows (terminal_backspace t) (back_space g)
      × OnScreen (terminal_backspace t)
      × InBounds t (terminal_backspace t)
unfolding terminal_backspace erase update_cursor back_space
terminal_backspace_refines {t} {g} s v = (
  record {
    rows = record {
      same_row = ground arith;
      same_color = ground arith;
      same_cells = λ r c p q. ground (arith, v.rows.same_cells r c);
    };
    same_column = ground arith;
  },
  ground arith,
  λ j h. ground arith,
)
