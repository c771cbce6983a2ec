-- ===== src/Shell/Notes.antt =====
-- The notes window of src/shell/commands.c: its buffer refines a text of at most 63 characters.
use xenon_os.Base.{
  ℕ, ◌+◌, ◌-◌, ◌<◌, ◌≤◌, ◌≡◌, ◌&&◌, List, [], ◌∷◌, ◌++◌, ◌==◌, leb, ltb, if◌then◌else◌, update,
  arith, length,
}
use xenon_os.Gui.{Gui, Window, gui_redraw_window}
use xenon_os.Keyboard.Editing.{
  prefix, prefix-update, drop_last, drop_last-prefix, prefix-push, length-prefix,
}

abbrev pub notes_buffer_size : ℕ
notes_buffer_size = 64

-- notes_state_t
pub record Notes : Type 0 where
  pub text : ℕ → ℕ
  pub used : ℕ

-- A `char` is signed: the bytes from 128 on are negative, and not above the space.
pub notes_edit : ℕ → Notes → Notes
notes_edit c n =
    if c == 8
    then if ltb 0 n.used
      then record { text = update n.text (n.used - 1) 0; used = n.used - 1 }
      else n
    else if (leb b' ' c && ltb c 128) && ltb n.used (notes_buffer_size - 1)
    then record { text = update (update n.text n.used c) (n.used + 1) 0; used = n.used + 1 }
    else n

pub notes_window_key : (ℕ → Window) → ℕ → ℕ → Notes × Gui → Notes × Gui
notes_window_key window pointer c (n, g) = (notes_edit c n, gui_redraw_window window pointer g)

-- The specification: typing at the end of a text.
pub edit_text : ℕ → List ℕ → List ℕ
edit_text c xs =
    if c == 8
    then drop_last xs
    else if (leb b' ' c && ltb c 128) && ltb (length xs) (notes_buffer_size - 1)
    then xs ++ (c ∷ [])
    else xs

-- The text ends in a NUL inside the buffer.
abbrev pub IsEnded : Notes → Type 0
IsEnded n = (n.used < notes_buffer_size) × (n.text n.used ≡ 0)

-- A key in the notes window edits the text as the specification does, and keeps it ended by a NUL
-- inside the buffer; it writes nothing beyond the buffer.
pub notes_window_key_refines :
    (window : ℕ → Window) (pointer c j : ℕ) (n : Notes) (g : Gui)
    → IsEnded n
    → notes_buffer_size ≤ j
    → let after = (notes_window_key window pointer c (n, g)).0 in
      (prefix after.text after.used ≡ edit_text c (prefix n.text n.used))
      × IsEnded after
      × (after.text j ≡ n.text j)
unfolding notes_window_key notes_edit edit_text
notes_window_key_refines window pointer c j n g ended out = (
  ground (
    arith,
    drop_last-prefix n.text n.used,
    prefix-update n.text (n.used - 1) 0 (n.used - 1),
    prefix-update (update n.text n.used c) (n.used + 1) 0 (n.used + 1),
    prefix-push n.text n.used c,
    length-prefix n.text n.used,
  ),
  ground arith,
  ground arith,
)
