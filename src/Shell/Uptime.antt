-- ===== src/Shell/Uptime.antt =====
-- What the uptime command prints.
use xenon_os.Base.{
  ℕ, ◌+◌, ◌*◌, ◌/◌, ◌%◌, ◌^◌, ◌<◌, ◌≡◌, refl, List, [], ◌∷◌, ◌++◌, some, arith, codes, mul32,
}
use xenon_os.Text.{itoa}
use xenon_os.Terminal.{Terminal, uint, terminal_write}
use xenon_os.Terminal.Format.{expand, directive_text, spell}
use xenon_os.Terminal.Cursor.{call, calls}
use xenon_os.Terminal.Calls.{calls-writef}
use xenon_os.Shell.{uptime}

abbrev pub uptime_text : ℕ → ℕ → ℕ → List ℕ
uptime_text h m s =
    codes "Uptime: "
    ++ (itoa h ++ (codes "h " ++ (itoa m ++ (codes "m " ++ (itoa s ++ codes "s\n> ")))))

-- Up to 4294967 ticks, which is not quite twelve hours, uptime prints the seconds since the timer
-- was started, as hours, minutes and seconds.
pub uptime_lem :
    (ticks : ℕ) (t : Terminal)
    → ticks * 1000 < 2 ^ 32
    → (h : ℕ) × (m : ℕ) × (s : ℕ) × (calls (uptime ticks) t
        ≡ some (terminal_write (uptime_text h m s) t))
      × (m < 60)
      × (s < 60)
      × (h * 3600 + m * 60 + s ≡ ticks / 100)
unfolding uptime calls call expand directive_text spell
uptime_lem ticks t b =
    let total : ℕ = mul32 ticks 1000 / 100 / 1000 in
    (
      total / 60 / 60,
      total / 60 % 60,
      total % 60,
      calls-writef (codes "Uptime: %uh %um %us\n> ")
          (uint (total / 60 / 60) ∷ uint (total / 60 % 60) ∷ uint (total % 60) ∷ []) []
          (uptime_text (total / 60 / 60) (total / 60 % 60) (total % 60)) t refl,
      omega arith,
      omega arith,
      omega arith,
    )
