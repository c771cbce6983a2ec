-- ===== src/Keyboard/Tests.antt =====
-- Runs of src/io/keyboard.c, and its theorems at concrete keys.
use xenon_os.Base.{◌≡◌, refl, true, false, [], ◌∷◌, arith, get_or}
use xenon_os.Keyboard.{
  Keyboard, translate, raise, lower, normal_table, shift_table, keyboard_handler,
}
use xenon_os.Keyboard.Layout.{caps_lock_inert}
use xenon_os.Keyboard.Editing.{line, HasRoom, key_line, keyboard_handler_refines}

-- "hi" has been typed.
abbrev typing : Keyboard
typing = record {
  shift = false;
  caps_lock = false;
  input = λ i. get_or (b'h' ∷ b'i' ∷ []) i 0;
  input_length = 2;
}

translate-e : translate false false 18 ≡ b'e'
unfolding translate raise lower normal_table
translate-e = refl

translate-bang : translate true false 2 ≡ b'!'
unfolding translate raise lower shift_table
translate-bang = refl

-- The key of "a" with Caps Lock on still gives a small letter.
caps_lock_inert_example : translate false true 30 ≡ translate false false 30
caps_lock_inert_example = caps_lock_inert false true 30 (omega arith)

keyboard_handler_refines_example :
    (line (keyboard_handler false 18 typing).0 ≡ key_line false 18 typing)
    × HasRoom (keyboard_handler false 18 typing).0
    × ((keyboard_handler false 18 typing).0.input 128 ≡ 0)
keyboard_handler_refines_example =
    keyboard_handler_refines false 18 128 typing (omega arith) (omega arith) (omega arith)
