-- ===== src/Shell.antt =====
-- src/shell/commands.c: the commands of the text shell, and the windows of the `gui` command. What
-- a command asks of cpu.c, memory.c, pit.c and the framebuffer is in `Machine`.
pub mod Uptime
pub mod Report
pub mod Commands
pub mod Notes
pub mod Echo
pub mod Windows
pub mod Drawing
pub mod Tests
use xenon_os.Base.{
  ℕ, zero, suc, ◌+◌, ◌-◌, ◌*◌, ◌/◌, ◌%◌, Bool, true, false, not, ◌&&◌, ◌||◌, Option, some, none,
  List, [], ◌∷◌, ◌==◌, leb, ltb, if◌then◌else◌, update, mul32, add32, ℤ, pos, negsuc, codes,
}
use xenon_os.Text.{strcmp, strlen}
use xenon_os.Terminal.{
  Terminal, Arg, uint, str, Color, red, black, terminal_initialize, terminal_write,
}
use xenon_os.Terminal.Cursor.{Call, putchar, write, write_colored, writef, calls}
use xenon_os.Gui.{
  Gui, Window, Event, emit, draw_string, fill_rect, gui_initialize, gui_add_window, gui_enter,
  gui_redraw_window, gui_window_content_x, gui_window_content_y, gui_window_content_width,
  gui_window_content_height,
}
use xenon_os.Suites.{Suite, test_run_all}
use mathlib.Core.Option

-- cpu_get_vendor, cpu_get_version, memory_get_kb, pit_get_ticks, the success of
-- framebuffer_initialize and its size, and the outcomes of the tests.
pub record Machine : Type 0 where
  pub vendor : List ℕ
  pub family : ℕ
  pub model : ℕ
  pub memory_kb : ℕ
  pub ticks : ℕ
  pub framebuffer_ok : Bool
  pub fb_width : ℕ
  pub fb_height : ℕ
  pub suites : List Suite

-- What the shell works on; `window` is what the pointers of the GUI's windows point to, and
-- `halted` is the endless loop of shutdown.
pub record Shell : Type 0 where
  pub console : Terminal
  pub gui : Gui
  pub window : ℕ → Window
  pub halted : Bool

-- The pointers &notes_window, &welcome_window and &info_window.
abbrev pub notes_window : ℕ
notes_window = 1

abbrev pub welcome_window : ℕ
welcome_window = 2

abbrev pub info_window : ℕ
info_window = 3

-- XENON_OS_VERSION
abbrev pub version : List ℕ
version = codes "0.1"

-- The console calls of a command; `none` is a formatted write without a meaning.
pub print : List Call → Shell → Option Shell
print cs s = Option.map (λ t. record s { console = t }) (calls cs s.console)

pub shell_initialize : Shell → Option Shell
shell_initialize s =
    print (write (codes "Hello from XenonOS ^_^\n\n> ") ∷ [])
      (record s { console = terminal_initialize s.console })

abbrev pub help : List Call
help =
    write (codes "Commands:\n")
    ∷ write (codes "  help  - show this message\n")
    ∷ write (codes "  clear - clear the screen\n")
    ∷ write (codes "  echo  - print text\n")
    ∷ write (codes "  info  - system information\n")
    ∷ write (codes "  shutdown - shut down the system\n")
    ∷ write (codes "  uptime - show system uptime\n")
    ∷ write (codes "  test  - run the unit test suite\n")
    ∷ write (codes "  gui   - switch to graphics mode\n")
    ∷ write (codes "\n> ")
    ∷ []

abbrev pub info : Machine → List Call
info m =
    writef (codes "XenonOS v%s\n") (str version ∷ [])
    ∷ writef (codes "CPU vendor: %s\n") (str m.vendor ∷ [])
    ∷ writef (codes "CPU family: %u\n") (uint m.family ∷ [])
    ∷ writef (codes "CPU model: %u\n") (uint m.model ∷ [])
    ∷ writef (codes "Memory: %u MB\n") (uint (m.memory_kb / 1024) ∷ [])
    ∷ write (codes "Mode: 32-bit protected mode\n")
    ∷ write (codes "Interrupts: enabled\n")
    ∷ write (codes "\n> ")
    ∷ []

pub shutdown : Shell → Option Shell
shutdown s = print (write (codes "Shutting down...\n") ∷ []) (record s { halted = true })

abbrev pub drop : ℕ → List ℕ → List ℕ
drop zero xs = xs
drop (suc n) [] = []
drop (suc n) (x ∷ xs) = drop n xs

abbrev pub echo : List ℕ → List Call
echo input = write (drop 5 input) ∷ write (codes "\n> ") ∷ []

-- TIMER_HZ is 100.
pub uptime : ℕ → List Call
uptime ticks =
    let ms = mul32 ticks 1000 / 100 in
    let seconds = ms / 1000 in
    let minutes = seconds / 60 in
    let hours = minutes / 60 in
    writef (codes "Uptime: %uh %um %us\n> ")
      (uint hours ∷ uint (minutes % 60) ∷ uint (seconds % 60) ∷ [])
    ∷ []

abbrev window_of : List ℕ → ℕ → ℕ → ℕ → ℕ → Bool → Window
window_of title x y width height key = record {
  title = some title;
  x = x;
  y = y;
  width = width;
  height = height;
  bg_color = 0x00202020;
  has_draw = true;
  has_key = key;
}

-- The three initializers of the `gui` command.
pub desktop : (ℕ → Window) → ℕ → Window
desktop window =
    update
      (update (update window notes_window (window_of (codes "Notes") 40 40 360 100 true))
        welcome_window (window_of (codes "Welcome") 440 40 320 100 false))
      info_window (window_of (codes "System Info") 40 180 320 120 false)

pub gui : Machine → Shell → Option Shell
gui m s =
    let (ok, g) = gui_initialize m.framebuffer_ok s.gui in
    if not ok
    then print
        (write_colored
            (codes "I couldn't find a VGA PCI device. No graphics mode for you >:(.\n\n> ") red
            black
          ∷ [])
        (record s { gui = g })
    else let window = desktop s.window in
      let g1 = (gui_add_window notes_window g).1 in
      let g2 = (gui_add_window welcome_window g1).1 in
      let g3 = (gui_add_window info_window g2).1 in
      some (record s { window = window; gui = gui_enter window m.fb_width m.fb_height g3 })

abbrev is_zero : ℤ → Bool
is_zero (pos n) = n == 0
is_zero (negsuc n) = false

-- `strcmp(input, word) == 0`
pub is_command : List ℕ → List ℕ → Bool
is_command input word = is_zero (strcmp input word)

abbrev char_at : ℕ → List ℕ → ℕ
char_at zero [] = 0
char_at zero (c ∷ s) = c
char_at (suc i) [] = 0
char_at (suc i) (c ∷ s) = char_at i s

pub is_echo : List ℕ → Bool
is_echo input =
    leb 5 (strlen input)
    && (char_at 0 input == b'e'
        && (char_at 1 input == b'c'
            && (char_at 2 input == b'h' && (char_at 3 input == b'o' && char_at 4 input == b' '))))

-- The `else if` chain of execute_command.
pub dispatch : Machine → List ℕ → Shell → Option Shell
dispatch m input s =
    if is_command input []
    then print (write (codes "> ") ∷ []) s
    else if is_command input (codes "help")
    then print help s
    else if is_command input (codes "clear")
    then shell_initialize s
    else if is_command input (codes "info")
    then print (info m) s
    else if is_command input (codes "shutdown") || is_command input (codes "exit")
    then shutdown s
    else if is_echo input
    then print (echo input) s
    else if is_command input (codes "uptime")
    then print (uptime m.ticks) s
    else if is_command input (codes "test")
    then print (test_run_all m.suites) s
    else if is_command input (codes "gui")
    then gui m s
    else print (write (codes "Never heard of that. Try 'help' if you're unsure.\n\n>") ∷ []) s

-- The line is the bytes before the NUL that is stored at `input_length`.
pub execute_command : Machine → List ℕ → Shell → Option Shell
execute_command m input s = elim (print (putchar b'\n' ∷ []) s) [
  | none ↦ none
  | some s' ↦ dispatch m input s'
]
