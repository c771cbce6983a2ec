-- ===== src/Terminal/Calls.antt =====
-- Formatted writes among other calls of the console.
use mathlib.Core.Option
use xenon_os.Base.{ℕ, ◌≡◌, ap, ◌∙◌, List, ◌∷◌, Option, some, none}
use xenon_os.Terminal.{Terminal, Arg, terminal_write}
use xenon_os.Terminal.Format.{expand, terminal_writef-expand}
use xenon_os.Terminal.Cursor.{Call, writef, call, calls}

-- A formatted write whose format expands is a write of the expansion.
pub calls-writef :
    (format : List ℕ) (args : List Arg) (rest : List Call) (text : List ℕ) (t : Terminal)
    → expand format args ≡ some text
    → calls (writef format args ∷ rest) t ≡ calls rest (terminal_write text t)
unfolding calls call
calls-writef format args rest text t e =
    ap (λ (o : Option Terminal). elim o [ none ↦ none | some t' ↦ calls rest t' ])
      (terminal_writef-expand format args t ∙ ap (Option.map (λ s. terminal_write s t)) e)
