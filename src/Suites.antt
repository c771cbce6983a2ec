-- ===== src/Suites.antt =====
-- src/tests/test.c: the test runner behind the `test` command. The outcome of each test function, which
-- ASSERT of test.h leaves in its variables, is an argument; the calls of the console are a list.
use xenon_os.Base.{ℕ, suc, ◌==◌, if◌then◌else◌, Option, none, some, List, [], ◌∷◌, ◌++◌, codes}
use xenon_os.Terminal.{Arg, Color}
use xenon_os.Terminal.Cursor.{Call}

-- test_current_failure_expr, _file and _line.
pub record Failure : Type 0 where
  pub expr : List ℕ
  pub file : List ℕ
  pub line : ℕ

-- A test with its outcome: `none` is one that does not fail.
pub record Case : Type 0 where
  pub name : List ℕ
  pub outcome : Option Failure

pub record Suite : Type 0 where
  pub suite_name : List ℕ
  pub cases : List Case

pub record Totals : Type 0 where
  pub total_tests : ℕ
  pub total_failures : ℕ

-- One round of the loop of test_run_suite.
unfoldable pub run_case : List ℕ → Case → Totals → List Call × Totals
run_case suite_name c t =
    let counted = record t { total_tests = suc t.total_tests } in
    elim c.outcome [
      | none ↦ ([], counted)
      | some failure ↦ (
        Call.writef_colored Color.light_red Color.black
              (codes "[FAIL] %s / %s\n       %s at %s:%u\n")
              (Arg.str suite_name
                ∷ Arg.str c.name
                ∷ Arg.str failure.expr
                ∷ Arg.str failure.file
                ∷ Arg.uint failure.line
                ∷ [])
            ∷ [],
        record counted { total_failures = suc t.total_failures },
      )
    ]

unfoldable pub test_run_suite : List ℕ → List Case → Totals → List Call × Totals
test_run_suite suite_name [] t = ([], t)
test_run_suite suite_name (c ∷ cases) t =
    let (calls, t') = run_case suite_name c t in
    let (rest, t'') = test_run_suite suite_name cases t' in (calls ++ rest, t'')

-- The calls of the functions test_suite_string to test_suite_thread in turn.
unfoldable pub run_suites : List Suite → Totals → List Call × Totals
run_suites [] t = ([], t)
run_suites (s ∷ suites) t =
    let (calls, t') = test_run_suite s.suite_name s.cases t in
    let (rest, t'') = run_suites suites t' in (calls ++ rest, t'')

-- The end of test_run_all.
unfoldable pub summary : Totals → Call
summary t =
    if t.total_failures == 0
    then Call.write_colored (codes "Test was successful. Everything works as intended :)\n")
        Color.light_green Color.black
    else Call.writef_colored Color.light_red Color.black (codes "%u of %u tests failed.\n")
        (Arg.uint t.total_failures ∷ Arg.uint t.total_tests ∷ [])

unfoldable pub test_run_all : List Suite → List Call
test_run_all suites =
    let (calls, t) = run_suites suites (record { total_tests = 0; total_failures = 0 }) in
    Call.write (codes "Running tests...\n")
    ∷ (calls ++ (Call.write (codes "\n") ∷ summary t ∷ Call.write (codes "\n> ") ∷ []))
