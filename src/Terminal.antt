-- ===== src/Terminal.antt =====
-- src/io/terminal.c, terminal.h: the VGA text console. A C string is the list of its bytes, without
-- the final NUL. Each public function runs under terminal_lock from its first step to its last, so
-- a call is one transition of this state; the lock word itself is the subject of `Spinlock`.
pub mod Scroll
pub mod Screen
pub mod Cursor
pub mod Calls
pub mod Colored
pub mod Format
mod Tests
use xenon_os.Base.{
  ℕ, zero, suc, ◌+◌, ◌-◌, ◌*◌, ◌/◌, ◌%◌, ◌^◌, List, [], ◌∷◌, true, false, ltb, leb, ◌==◌, ◌&&◌,
  ◌||◌, if◌then◌else◌, bit_and, bit_or, update, Option, some, none,
}
use xenon_os.Text.{itoa, itoa_hex}
use mathlib.Core.Option

abbrev pub vga_width : ℕ
vga_width = 80

abbrev pub vga_height : ℕ
vga_height = 25

-- enum vga_color
pub data Color : Type 0 where
  black blue green cyan red magenta brown light_grey : Color
  dark_grey light_blue light_green light_cyan light_red light_magenta light_brown white : Color

pub color_code : Color → ℕ
color_code black = 0
color_code blue = 1
color_code green = 2
color_code cyan = 3
color_code red = 4
color_code magenta = 5
color_code brown = 6
color_code light_grey = 7
color_code dark_grey = 8
color_code light_blue = 9
color_code light_green = 10
color_code light_cyan = 11
color_code light_red = 12
color_code light_magenta = 13
color_code light_brown = 14
color_code white = 15

-- The static variables of terminal.c, and the writes to I/O ports, the newest first.
pub record Terminal : Type 0 where
  pub video : ℕ → ℕ
  pub row : ℕ
  pub column : ℕ
  pub current_color : ℕ
  pub ports : List (ℕ × ℕ)

abbrev pub outb : ℕ → ℕ → Terminal → Terminal
outb port value t = record t { ports = (port, value) ∷ t.ports }

-- `(unsigned short)((current_color << 8) | (unsigned char)c)`
pub entry : ℕ → ℕ → ℕ
entry color c = bit_or (color * 2 ^ 8) (c % 2 ^ 8) % 2 ^ 16

abbrev pub cell_index : ℕ → ℕ → ℕ
cell_index row column = row * vga_width + column

pub update_cursor : Terminal → Terminal
update_cursor t =
    let position = cell_index t.row t.column % 2 ^ 16 in
    outb 0x3D5 (position / 2 ^ 8)
      (outb 0x3D4 0x0E (outb 0x3D5 (bit_and position 0xFF) (outb 0x3D4 0x0F t)))

-- `video[i] = blank` for `n` indices from `i` on.
pub fill_cells : ℕ → ℕ → ℕ → (ℕ → ℕ) → ℕ → ℕ
fill_cells zero i blank video = video
fill_cells (suc n) i blank video = fill_cells n (i + 1) blank (update video i blank)

pub clear : Terminal → Terminal
clear t = update_cursor (record t {
  video = fill_cells (vga_width * vga_height) 0 (entry t.current_color b' ') t.video;
})

-- The inner loop of `scroll`, over `x`, by the rounds left.
pub copy_row : ℕ → ℕ → ℕ → (ℕ → ℕ) → ℕ → ℕ
copy_row zero x y video = video
copy_row (suc left) x y video =
    copy_row left (x + 1) y (update video (cell_index (y - 1) x) (video (cell_index y x)))

-- The outer loop of `scroll`, over `y`.
pub copy_rows : ℕ → ℕ → (ℕ → ℕ) → ℕ → ℕ
copy_rows zero y video = video
copy_rows (suc left) y video = copy_rows left (y + 1) (copy_row vga_width 0 y video)

pub scroll : Terminal → Terminal
scroll t = if ltb t.row vga_height then t else record t {
  video =
      fill_cells vga_width (cell_index (vga_height - 1) 0) (entry t.current_color b' ')
        (copy_rows (vga_height - 1) 1 t.video);
  row = vga_height - 1;
}

pub newline : Terminal → Terminal
newline t = scroll (record t { column = 0; row = t.row + 1 })

-- terminal_putchar_locked_nocursor
pub putchar_nocursor : ℕ → Terminal → Terminal
putchar_nocursor c t =
    let t' = record t {
      video = update t.video (cell_index t.row t.column) (entry t.current_color c);
      column = t.column + 1;
    } in
    if c == b'\n' then newline t else if leb vga_width (t.column + 1) then newline t' else t'

pub terminal_putchar : ℕ → Terminal → Terminal
terminal_putchar c t = update_cursor (putchar_nocursor c t)

pub terminal_initialize : Terminal → Terminal
terminal_initialize t = update_cursor (clear (record t { row = 0; column = 0 }))

pub erase : Terminal → Terminal
erase t =
    update_cursor
      (record t { video = update t.video (cell_index t.row t.column) (entry t.current_color b' ') })

pub terminal_backspace : Terminal → Terminal
terminal_backspace t =
    if t.column == 0 && t.row == 0
    then t
    else if ltb 0 t.column
    then erase (record t { column = t.column - 1 })
    else erase (record t { row = t.row - 1; column = vga_width - 1 })

-- The loop `while (*str) terminal_putchar_locked_nocursor(*str++)`.
pub put_string : List ℕ → Terminal → Terminal
put_string [] t = t
put_string (c ∷ str) t = put_string str (putchar_nocursor c t)

pub terminal_write : List ℕ → Terminal → Terminal
terminal_write str t = update_cursor (put_string str t)

-- `(unsigned char)((bg << 4) | (fg & 0x0F))`
pub attribute : Color → Color → ℕ
attribute fg bg = bit_or (color_code bg * 2 ^ 4) (bit_and (color_code fg) 0x0F) % 2 ^ 8

pub terminal_set_color : Color → Color → Terminal → Terminal
terminal_set_color fg bg t = record t { current_color = attribute fg bg }

-- Body of the two `_colored` functions: run `body` in the colour, then restore the previous one.
abbrev pub colored : Color → Color → (Terminal → Terminal) → Terminal → Terminal
colored fg bg body t = record (update_cursor (body (terminal_set_color fg bg t))) {
  current_color = t.current_color;
}

pub terminal_write_colored : List ℕ → Color → Color → Terminal → Terminal
terminal_write_colored str fg bg t = colored fg bg (put_string str) t

-- An argument of a formatted write.
pub data Arg : Type 0 where
  uint : ℕ → Arg
  str : List ℕ → Arg
  char : ℕ → Arg

-- What one conversion does with the arguments: `none` is an argument that is missing or of another
-- type, on which va_arg is undefined. The cast of a `%c` argument to char keeps its low byte.
pub convert : ℕ → List Arg → Terminal → Option (List Arg × Terminal)
convert c (uint value ∷ args) t =
    if c == b'u'
    then some (args, put_string (itoa value) t)
    else if c == b'x'
    then some (args, put_string (itoa_hex value) t)
    else none
convert c (str s ∷ args) t = if c == b's' then some (args, put_string s t) else none
convert c (char a ∷ args) t =
    if c == b'c' then some (args, putchar_nocursor (a % 2 ^ 8) t) else none
convert c [] t = none

-- The `switch` on the character after a '%'.
pub directive : ℕ → List Arg → Terminal → Option (List Arg × Terminal)
directive c args t =
    if c == b'u' || c == b'x' || c == b's' || c == b'c'
    then convert c args t
    else if c == b'%'
    then some (args, putchar_nocursor b'%' t)
    else some (args, putchar_nocursor c (putchar_nocursor b'%' t))

-- write_formatted_locked. A format that ends in '%' makes the source print the NUL and step past
-- it: it then reads beyond the string, which is `none` here.
pub write_formatted : List ℕ → List Arg → Terminal → Option Terminal
write_formatted [] args t = some t
write_formatted (c ∷ []) args t = if c == b'%' then none else some (putchar_nocursor c t)
write_formatted (c ∷ d ∷ format) args t = elim (c == b'%') [
  | true ↦ elim (directive d args t) [
    | none ↦ none
    | some (args', t') ↦ write_formatted format args' t'
  ]
  | false ↦ write_formatted (d ∷ format) args (putchar_nocursor c t)
]

pub terminal_writef : List ℕ → List Arg → Terminal → Option Terminal
terminal_writef format args t = Option.map update_cursor (write_formatted format args t)

pub terminal_writef_colored : Color → Color → List ℕ → List Arg → Terminal → Option Terminal
terminal_writef_colored fg bg format args t =
    Option.map (λ t'. record (update_cursor t') { current_color = t.current_color })
      (write_formatted format args (terminal_set_color fg bg t))
