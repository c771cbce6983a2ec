-- ===== src/Terminal/Tests.antt =====
-- Runs of src/io/terminal.c, and its theorems at concrete screens.
use mathlib.Core.Option
use xenon_os.Base.{ℕ, ◌≡◌, refl, List, [], ◌∷◌, some, none, arith}
use xenon_os.Text.{itoa, digit_loop, decimal_digit}
use xenon_os.Terminal.{
  Terminal, Color, Arg, entry, attribute, color_code, terminal_write, terminal_backspace,
  terminal_writef, terminal_initialize, terminal_putchar,
}
use xenon_os.Terminal.Screen.{Grid, OnScreen, Shows, InBounds, type_string, terminal_write_refines}
use xenon_os.Terminal.Cursor.{Call, IsSynced, call, calls, initialized-IsSynced}
use xenon_os.Terminal.Format.{expand, directive_text, spell, terminal_writef-expand}

-- Zeroed video memory, with the cursor on the last cell of the screen.
abbrev last_cell : Terminal
last_cell = record { video = λ _. 0; row = 24; column = 79; current_color = 7; ports = [] }

abbrev last_grid : Grid
last_grid = record { cell = λ r c. 0; row = 24; column = 79; color = 7 }

abbrev hi : List ℕ
hi = b'h' ∷ b'i' ∷ []

last_cell-OnScreen : OnScreen last_cell
last_cell-OnScreen = omega arith

last_cell-Shows : Shows last_cell last_grid
last_cell-Shows = record {
  rows = record { same_row = refl; same_color = refl; same_cells = λ r c p q. refl };
  same_column = refl;
}

entry-grey : entry 7 b'A' ≡ 0x0741
unfolding entry
entry-grey = refl

attribute-red : attribute Color.light_red Color.black ≡ 0x0c
unfolding attribute color_code
attribute-red = refl

terminal_write_refines_example :
    Shows (terminal_write hi last_cell) (type_string hi last_grid)
    × OnScreen (terminal_write hi last_cell)
    × InBounds last_cell (terminal_write hi last_cell)
terminal_write_refines_example = terminal_write_refines hi last_cell-OnScreen last_cell-Shows

-- "%u%%"
abbrev percentage : List ℕ
percentage = b'%' ∷ b'u' ∷ b'%' ∷ b'%' ∷ []

expand-percentage : expand percentage (Arg.uint 50 ∷ []) ≡ some (b'5' ∷ b'0' ∷ b'%' ∷ [])
unfolding expand directive_text spell itoa digit_loop decimal_digit
expand-percentage = refl

expand-dangling : expand (b'a' ∷ b'%' ∷ []) [] ≡ none
unfolding expand
expand-dangling = refl

terminal_writef-expand_example :
    terminal_writef percentage (Arg.uint 50 ∷ []) last_cell
    ≡ Option.map (λ s. terminal_write s last_cell) (expand percentage (Arg.uint 50 ∷ []))
terminal_writef-expand_example = terminal_writef-expand percentage (Arg.uint 50 ∷ []) last_cell

abbrev session : List Call
session = Call.write hi ∷ Call.backspace ∷ Call.putchar b'o' ∷ []

initialized-IsSynced_example :
    IsSynced (
      terminal_putchar b'o'
        (terminal_backspace (terminal_write hi (terminal_initialize last_cell))))
unfolding calls call
initialized-IsSynced_example = initialized-IsSynced session last_cell refl
