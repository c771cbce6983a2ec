-- ===== src/Shell/Tests.antt =====
-- A session of the shell, and the theorems on it.
use xenon_os.Base.{
  ℕ, ◌+◌, ◌*◌, ◌/◌, ◌<◌, ◌≡◌, refl, [], ◌∷◌, some, none, arith, codes, false, true, ◌==◌,
  if◌then◌else◌,
}
use xenon_os.Terminal.{Terminal, terminal_initialize, terminal_write}
use xenon_os.Terminal.Cursor.{calls, IsSynced, initialized-IsSynced}
use xenon_os.Gui.{Gui, Window}
use xenon_os.Keyboard.Editing.{prefix}
use xenon_os.Shell.{Shell, Machine, uptime, execute_command}
use xenon_os.Shell.Uptime.{uptime_text, uptime_lem}
use xenon_os.Shell.Commands.{Answered, execute_command-Answered}
use xenon_os.Shell.Notes.{Notes, IsEnded, notes_window_key, edit_text, notes_window_key_refines}

abbrev blank : Terminal
blank = record { video = λ i. 0; row = 7; column = 9; current_color = 7; ports = [] }

abbrev console : Terminal
console = terminal_initialize blank

console-IsSynced : IsSynced console
console-IsSynced = initialized-IsSynced [] blank (unfold calls in refl)

abbrev no_windows : Gui
no_windows = record {
  windows = λ i. 0;
  window_count = 0;
  focused_window = none;
  gui_active = false;
  gui_ready = false;
  events = [];
}

abbrev plain_window : Window
plain_window = record {
  title = none;
  x = 0;
  y = 0;
  width = 9;
  height = 99;
  bg_color = 0;
  has_draw = false;
  has_key = false;
}

abbrev machine : Machine
machine = record {
  vendor = codes "GenuineIntel";
  family = 6;
  model = 42;
  memory_kb = 130048;
  ticks = 1234567;
  framebuffer_ok = true;
  fb_width = 800;
  fb_height = 600;
  suites =
      record {
        suite_name = codes "pmm";
        cases =
            record { name = codes "alloc_returns_valid_frame"; outcome = none }
            ∷ record {
              name = codes "free_then_realloc_reuses_frame";
              outcome =
                  some (record { expr = codes "a == b"; file = codes "test_pmm.c"; line = 31 });
            }
            ∷ [];
      }
      ∷ [];
}

abbrev pub session : Shell
session = record { console = console; gui = no_windows; window = λ i. plain_window; halted = false }

uptime_lem_example :
    (h : ℕ) × (m : ℕ) × (s : ℕ) × (calls (uptime 1234567) console
      ≡ some (terminal_write (uptime_text h m s) console))
    × (m < 60)
    × (s < 60)
    × (h * 3600 + m * 60 + s ≡ 1234567 / 100)
uptime_lem_example = uptime_lem 1234567 console (omega arith)

execute_command-Answered_example : Answered (execute_command machine (codes "test") session)
execute_command-Answered_example =
    execute_command-Answered machine (codes "test") session console-IsSynced

abbrev one_note : Notes
one_note = record { text = λ i. if i == 0 then b'a' else 0; used = 1 }

notes_window_key_refines_example :
    let after = (notes_window_key (λ i. plain_window) 1 b'b' (one_note, no_windows)).0 in
    (prefix after.text after.used ≡ edit_text b'b' (prefix one_note.text 1))
    × IsEnded after
    × (after.text 64 ≡ one_note.text 64)
notes_window_key_refines_example =
    notes_window_key_refines (λ i. plain_window) 1 b'b' 64 one_note no_windows (omega arith, refl)
      (omega arith)
