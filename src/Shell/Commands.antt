-- ===== src/Shell/Commands.antt =====
-- Every line that can be typed has a meaning.
use mathlib.Core.Option
use mathlib.Core.Option.{some-injective}
use xenon_os.Base.{
  ℕ, ◌≡◌, refl, ap, List, [], ◌∷◌, Option, some, codes, Bool, true, false, Bool-cases, inl, inr,
  ◌||◌, if◌then◌else◌,
}
use xenon_os.Terminal.{Terminal, terminal_initialize}
use xenon_os.Terminal.Format.{expand, directive_text, spell}
use xenon_os.Terminal.Cursor.{
  Call, putchar, call, calls, IsSynced, calls-IsSynced, initialized-IsSynced,
}
use xenon_os.Shell.{
  Shell, Machine, print, shell_initialize, help, info, shutdown, uptime, gui, is_command, is_echo,
  dispatch, execute_command,
}
use xenon_os.Gui.{gui_initialize}
use xenon_os.Shell.Report.{
  Meaningful, nil-Meaningful, write-Meaningful, writef-Meaningful, one-Meaningful, tests-Meaningful,
}

-- A command that ends with the cursor on the screen.
abbrev pub Answered : Option Shell → Type 0
Answered o = (s' : Shell) × (o ≡ some s') × IsSynced s'.console

print-Answered :
    (cs : List Call) (s : Shell) → Meaningful cs → IsSynced s.console → Answered (print cs s)
unfolding print
print-Answered cs s ok synced =
    let (t', e) = ok s.console in
    (
      record s { console = t' },
      ap (Option.map (λ (t : Terminal). record s { console = t })) e,
      calls-IsSynced cs synced e,
    )

help-Meaningful : Meaningful help
unfolding calls call
help-Meaningful t = (_, refl)

info-Meaningful : (m : Machine) → Meaningful (info m)
unfolding expand directive_text spell
info-Meaningful m = writef-Meaningful _ _ _ _ refl (
    writef-Meaningful _ _ _ _ refl (
      writef-Meaningful _ _ _ _ refl (
        writef-Meaningful _ _ _ _ refl (
          writef-Meaningful _ _ _ _ refl
            (write-Meaningful _ _ (write-Meaningful _ _ (one-Meaningful _)))))))

uptime-Meaningful : (ticks : ℕ) → Meaningful (uptime ticks)
unfolding uptime expand directive_text spell
uptime-Meaningful ticks = writef-Meaningful _ _ _ _ refl nil-Meaningful

pub initialize-Answered : (s : Shell) → Answered (shell_initialize s)
unfolding shell_initialize
initialize-Answered s =
    print-Answered _ (record s { console = terminal_initialize s.console }) (one-Meaningful _)
      (initialized-IsSynced [] s.console (unfold calls in refl))

shutdown-Answered : (s : Shell) → IsSynced s.console → Answered (shutdown s)
unfolding shutdown
shutdown-Answered s synced = print-Answered _ (record s { halted = true }) (one-Meaningful _) synced

gui-Answered : (m : Machine) (s : Shell) → IsSynced s.console → Answered (gui m s)
unfolding gui gui_initialize calls call
gui-Answered m s synced = elim (Bool-cases m.framebuffer_ok) [
  | inl ok ↦ rw (ok, gui, gui_initialize) (_, refl, synced)
  | inr bad ↦ rw (bad, gui, gui_initialize) (print-Answered _ s (λ t. (_, refl)) synced)
]

either :
    {yes_case no_case : Option Shell} (test : Bool)
    → Answered yes_case
    → Answered no_case
    → Answered (if test then yes_case else no_case)
either true a b = a
either false a b = b

dispatch-Answered :
    (m : Machine) (input : List ℕ) (s : Shell) → IsSynced s.console → Answered (dispatch m input s)
unfolding dispatch
dispatch-Answered m input s synced =
    either (is_command input []) (print-Answered _ s (one-Meaningful _) synced) (
      either (is_command input (codes "help")) (print-Answered _ s help-Meaningful synced) (
        either (is_command input (codes "clear")) (initialize-Answered s) (
          either (is_command input (codes "info")) (print-Answered _ s (info-Meaningful m) synced) (
            either (is_command input (codes "shutdown") || is_command input (codes "exit"))
              (shutdown-Answered s synced)
              (either (is_echo input)
                (print-Answered _ s (write-Meaningful _ _ (one-Meaningful _)) synced)
                (either (is_command input (codes "uptime"))
                  (print-Answered _ s (uptime-Meaningful m.ticks) synced)
                  (either (is_command input (codes "test"))
                    (print-Answered _ s (tests-Meaningful m.suites) synced)
                    (either (is_command input (codes "gui")) (gui-Answered m s synced)
                      (print-Answered _ s (one-Meaningful _) synced)))))))))

-- On a console whose cursor is on the screen and in step, every line is answered: execute_command has a
-- meaning for it, the formatted writes of the commands included, and the cursor is on the screen after it,
-- with the hardware cursor in step. The test command reports whatever the outcomes of the tests are.
pub execute_command-Answered :
    (m : Machine) (input : List ℕ) (s : Shell)
    → IsSynced s.console
    → Answered (execute_command m input s)
unfolding execute_command calls call
execute_command-Answered m input s synced =
    let (s', e, synced') = print-Answered (putchar b'\n' ∷ []) s (λ t. (_, refl)) synced in
    rw (e, execute_command) (dispatch-Answered m input s' synced')
