-- ===== src/Gui/Tests.antt =====
-- Runs of src/gui/gui.c, and its theorems at a concrete desktop.
use xenon_os.Base.{ℕ, ◌+◌, ◌%◌, ◌≡◌, refl, true, some, none, [], arith, pos}
use xenon_os.Gui.{Gui, Window, gui_add_window}
use xenon_os.Gui.Focus.{IsValid, gui_add_window_lem, tabs, tabs_lem}

-- The "Notes" window of the shell.
abbrev notes : Window
notes = record {
  title = none;
  x = 40;
  y = 40;
  width = 360;
  height = 100;
  bg_color = 0x00202020;
  has_draw = true;
  has_key = true;
}

abbrev pointed : ℕ → Window
pointed p = notes

abbrev desktop : Gui
desktop = record {
  windows = λ i. i + 100;
  window_count = 3;
  focused_window = some 1;
  gui_active = true;
  gui_ready = true;
  events = [];
}

desktop-IsValid : IsValid desktop
desktop-IsValid = omega arith

gui_add_window_lem_example :
    ((gui_add_window 7 desktop).0 ≡ pos 3)
    × ((gui_add_window 7 desktop).1.window_count ≡ 4)
    × ((gui_add_window 7 desktop).1.windows 3 ≡ 7)
    × IsValid (gui_add_window 7 desktop).1
gui_add_window_lem_example = gui_add_window_lem 7 3 desktop-IsValid

tabs_lem_example :
    (g' : Gui) × (tabs pointed 3 desktop ≡ some g')
    × (g'.focused_window ≡ some ((1 + 3) % 3))
    × (g'.windows ≡ desktop.windows)
    × (g'.window_count ≡ 3)
tabs_lem_example = tabs_lem pointed 3 desktop 1 refl refl (omega arith)
