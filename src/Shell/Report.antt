-- ===== src/Shell/Report.antt =====
-- The calls of the console that have a meaning on every console, and the report of the test command among
-- them.
use xenon_os.Base.{
  ℕ, ◌≡◌, refl, ap, ◌∙◌, sym, subst, List, [], ◌∷◌, ◌++◌, Option, some, none, Option-cases,
  Bool-cases, inl, inr, ◌==◌,
}
use xenon_os.Base.Lists.{append_assoc}
use xenon_os.Terminal.{Terminal, Arg, Color, terminal_write, terminal_write_colored}
use xenon_os.Terminal.Format.{expand, directive_text, spell, terminal_writef_colored-some}
use xenon_os.Terminal.Cursor.{Call, writef, write, writef_colored, call, calls}
use xenon_os.Terminal.Calls.{calls-writef}
use xenon_os.Suites.{
  Suite, Case, Totals, run_case, test_run_suite, run_suites, summary, test_run_all,
}

-- A sequence of calls that has a meaning on every console.
abbrev pub Meaningful : List Call → Type 0
Meaningful cs = (t : Terminal) → (t' : Terminal) × (calls cs t ≡ some t')

pub nil-Meaningful : Meaningful []
unfolding calls
nil-Meaningful t = (t, refl)

pub write-Meaningful :
    (text : List ℕ) (cs : List Call) → Meaningful cs → Meaningful (write text ∷ cs)
unfolding calls call
write-Meaningful text cs ok t = ok (terminal_write text t)

pub writef-Meaningful :
    (format : List ℕ) (args : List Arg) (text : List ℕ) (cs : List Call)
    → expand format args ≡ some text
    → Meaningful cs
    → Meaningful (writef format args ∷ cs)
writef-Meaningful format args text cs e ok t =
    let (t', found) = ok (terminal_write text t) in
    (t', calls-writef format args cs text t e ∙ found)

-- The start, or the end, of a prompt.
pub one-Meaningful : (text : List ℕ) → Meaningful (write text ∷ [])
one-Meaningful text = write-Meaningful text [] nil-Meaningful

writef_colored-Meaningful :
    (fg bg : Color) (format : List ℕ) (args : List Arg) (text : List ℕ) (cs : List Call)
    → expand format args ≡ some text
    → Meaningful cs
    → Meaningful (writef_colored fg bg format args ∷ cs)
unfolding calls call
writef_colored-Meaningful fg bg format args text cs e ok t =
    let (t', found) = ok (terminal_write_colored text fg bg t) in
    (
      t',
      ap (λ (o : Option Terminal). elim o [ none ↦ none | some t'' ↦ calls cs t'' ])
            (terminal_writef_colored-some fg bg format args text t e)
          ∙ found,
    )

-- Calls that can stand in front of others.
abbrev IsPrefix : List Call → Type 0
IsPrefix xs = (cs : List Call) → Meaningful cs → Meaningful (xs ++ cs)

append-IsPrefix : (xs ys : List Call) → IsPrefix xs → IsPrefix ys → IsPrefix (xs ++ ys)
append-IsPrefix xs ys first rest cs ok =
    subst Meaningful (sym (append_assoc xs ys cs)) (first (ys ++ cs) (rest cs ok))

run_case-IsPrefix : (name : List ℕ) (c : Case) (t : Totals) → IsPrefix (run_case name c t).0
unfolding run_case expand directive_text spell
run_case-IsPrefix name c t = elim (Option-cases c.outcome) [
  | inl passed ↦ rw (passed, run_case) (λ cs ok. ok)
  | inr (failure, failed) ↦
      rw (failed, run_case) (λ cs ok. writef_colored-Meaningful _ _ _ _ _ cs refl ok)
]

test_run_suite-IsPrefix :
    (name : List ℕ) (cases : List Case) (t : Totals) → IsPrefix (test_run_suite name cases t).0
unfolding test_run_suite
test_run_suite-IsPrefix name [] t = λ cs ok. ok
test_run_suite-IsPrefix name (c ∷ cases) t =
    append-IsPrefix (run_case name c t).0 _ (run_case-IsPrefix name c t)
      (test_run_suite-IsPrefix name cases (run_case name c t).1)

run_suites-IsPrefix : (suites : List Suite) (t : Totals) → IsPrefix (run_suites suites t).0
unfolding run_suites
run_suites-IsPrefix [] t = λ cs ok. ok
run_suites-IsPrefix (s ∷ suites) t =
    append-IsPrefix (test_run_suite s.suite_name s.cases t).0 _
      (test_run_suite-IsPrefix s.suite_name s.cases t)
      (run_suites-IsPrefix suites (test_run_suite s.suite_name s.cases t).1)

summary-Meaningful : (t : Totals) (cs : List Call) → Meaningful cs → Meaningful (summary t ∷ cs)
unfolding summary expand directive_text spell calls call
summary-Meaningful t cs ok = elim (Bool-cases (t.total_failures == 0)) [
  | inl success ↦ rw (success, summary) (λ t'. ok _)
  | inr some_failed ↦ rw (some_failed, summary) (writef_colored-Meaningful _ _ _ _ _ cs refl ok)
]

-- The report of the tests has a meaning, whatever their outcomes.
pub tests-Meaningful : (suites : List Suite) → Meaningful (test_run_all suites)
unfolding test_run_all
tests-Meaningful suites = write-Meaningful _ _ (
    run_suites-IsPrefix suites _ _
      (write-Meaningful _ _ (summary-Meaningful _ _ (one-Meaningful _))))
