-- ===== src/Keyboard.antt =====
-- src/io/keyboard.c: scan codes to characters, and the line that is edited. What the handler has
-- the other parts do is returned as an effect; every path through it has at most one.
pub mod Layout
pub mod Editing
mod Tests
use xenon_os.Base.{
  ℕ, zero, suc, ◌+◌, ◌-◌, ◌*◌, ◌/◌, ◌%◌, ◌^◌, Bool, true, false, not, ◌&&◌, ◌||◌, List, [], ◌∷◌,
  ◌++◌, ◌==◌, ltb, leb, if◌then◌else◌, update, get_or, bit_and,
}

abbrev pub input_size : ℕ
input_size = 128

-- The static variables of keyboard.c.
pub record Keyboard : Type 0 where
  pub shift : Bool
  pub caps_lock : Bool
  pub input : ℕ → ℕ
  pub input_length : ℕ

pub normal_table : List ℕ
normal_table =
    0 ∷ 27 ∷ b'1' ∷ b'2' ∷ b'3' ∷ b'4' ∷ b'5' ∷ b'6' ∷ b'7' ∷ b'8' ∷ b'9' ∷ b'0' ∷ b'-' ∷ b'=' ∷ 8
    ∷ b'\t' ∷ b'q' ∷ b'w' ∷ b'e' ∷ b'r' ∷ b't' ∷ b'y' ∷ b'u' ∷ b'i' ∷ b'o' ∷ b'p' ∷ b'[' ∷ b']'
    ∷ b'\n' ∷ 0 ∷ b'a' ∷ b's' ∷ b'd' ∷ b'f' ∷ b'g' ∷ b'h' ∷ b'j' ∷ b'k' ∷ b'l' ∷ b';' ∷ 39 ∷ b'`'
    ∷ 0 ∷ 92 ∷ b'z' ∷ b'x' ∷ b'c' ∷ b'v' ∷ b'b' ∷ b'n' ∷ b'm' ∷ b',' ∷ b'.' ∷ b'/' ∷ 0 ∷ b'*' ∷ 0
    ∷ b' ' ∷ []

pub shift_table : List ℕ
shift_table =
    0 ∷ 27 ∷ b'!' ∷ b'@' ∷ b'#' ∷ b'$' ∷ b'%' ∷ b'^' ∷ b'&' ∷ b'*' ∷ 40 ∷ 41 ∷ b'_' ∷ b'+' ∷ 8
    ∷ b'\t' ∷ b'Q' ∷ b'W' ∷ b'E' ∷ b'R' ∷ b'T' ∷ b'Y' ∷ b'U' ∷ b'I' ∷ b'O' ∷ b'P' ∷ b'{' ∷ b'}'
    ∷ b'\n' ∷ 0 ∷ b'A' ∷ b'S' ∷ b'D' ∷ b'F' ∷ b'G' ∷ b'H' ∷ b'J' ∷ b'K' ∷ b'L' ∷ b':' ∷ 34 ∷ b'~'
    ∷ 0 ∷ b'|' ∷ b'Z' ∷ b'X' ∷ b'C' ∷ b'V' ∷ b'B' ∷ b'N' ∷ b'M' ∷ b'<' ∷ b'>' ∷ b'?' ∷ 0 ∷ b'*' ∷ 0
    ∷ b' ' ∷ []

-- The first Caps Lock test of the handler.
pub raise : Bool → ℕ → ℕ
raise caps c = if caps && leb b'a' c && leb c b'z' then c - (b'a' - b'A') else c

-- The second one.
pub lower : Bool → Bool → ℕ → ℕ
lower caps shift c = if caps && not shift && leb b'A' c && leb c b'Z' then c + (b'a' - b'A') else c

-- The character of a scan code below 128. The tables are zero behind their last entry.
pub translate : Bool → Bool → ℕ → ℕ
translate shift caps scancode =
    lower caps shift
      (raise caps (if shift then get_or shift_table scancode 0 else get_or normal_table scancode 0))

-- gui_handle_key, terminal_backspace, execute_command (with the buffer and the length) and
-- terminal_putchar.
pub data Effect : Type 0 where
  nothing : Effect
  gui_key : ℕ → Effect
  erase : Effect
  execute : (ℕ → ℕ) → ℕ → Effect
  echo : ℕ → Effect

-- From `if (c == '\b')` on. execute_command ends the string in the buffer that it is given.
pub edit : ℕ → Keyboard → Keyboard × Effect
edit c k =
    if c == 8
    then if ltb 0 k.input_length
      then (
        record k {
          input_length = k.input_length - 1;
          input = update k.input (k.input_length - 1) 0;
        },
        erase,
      )
      else (record k { input = update k.input k.input_length 0 }, nothing)
    else if c == b'\n'
    then (
      record k { input_length = 0; input = update k.input k.input_length 0 },
      execute k.input k.input_length,
    )
    else if not (c == 0) && ltb k.input_length (input_size - 1)
    then (
      record k { input = update k.input k.input_length c; input_length = k.input_length + 1 },
      echo c,
    )
    else (k, nothing)

-- From the translation on: while the GUI is active it gets every character.
pub type_key : Bool → ℕ → Keyboard → Keyboard × Effect
type_key gui_active scancode k =
    let c = translate k.shift k.caps_lock scancode in
    if gui_active then (k, gui_key c) else edit c k

pub is_shift_key : ℕ → Bool
is_shift_key key = key == 42 || key == 54

pub keyboard_handler : Bool → ℕ → Keyboard → Keyboard × Effect
keyboard_handler gui_active scancode k =
    if not (bit_and scancode 0x80 == 0)
    then (if is_shift_key (bit_and scancode 0x7F) then record k { shift = false } else k, nothing)
    else if is_shift_key scancode
    then (record k { shift = true }, nothing)
    else if scancode == 58
    then (record k { caps_lock = not k.caps_lock }, nothing)
    else if leb 128 scancode
    then (k, nothing)
    else type_key gui_active scancode k
