-- ===== src/Interrupts/Exceptions.antt =====
-- What the exception handlers print.
use xenon_os.Base.{ℕ, ◌≡◌, refl, ◌∙◌, List, [], ◌∷◌, ◌++◌, some, codes, true, false}
use xenon_os.Text.{itoa, itoa_hex}
use xenon_os.Terminal.{Terminal, Color, Arg, terminal_set_color, terminal_write}
use xenon_os.Terminal.Format.{expand, directive_text, spell}
use xenon_os.Terminal.Cursor.{Call, calls, call}
use xenon_os.Terminal.Calls.{calls-writef}
use xenon_os.Interrupts.{
  exception_report, exception_print_field, divide_error_handler, invalid_opcode_handler,
  general_protection_fault_handler, page_fault_handler,
}

-- The console after a report in red, and a line of it.
abbrev pub reported : List ℕ → Terminal → Terminal
reported name t =
    terminal_write
      (codes "\n\nCPU says we're cooked. You might wanna look into this: " ++ (name ++ codes "\n"))
      (terminal_set_color Color.light_red Color.black t)

abbrev pub line : List ℕ → List ℕ → Terminal → Terminal
line label number t = terminal_write (label ++ (number ++ codes "\n")) t

report-calls :
    (name : List ℕ) (cs : List Call) (t : Terminal)
    → calls (exception_report name ++ cs) t ≡ calls cs (reported name t)
unfolding exception_report calls call expand directive_text spell
report-calls name cs t =
    calls-writef (codes "\n\nCPU says we're cooked. You might wanna look into this: %s\n")
      (Arg.str name ∷ []) cs
      (codes "\n\nCPU says we're cooked. You might wanna look into this: " ++ (name ++ codes "\n"))
      (terminal_set_color Color.light_red Color.black t) refl

number-calls :
    (label : List ℕ) (value : ℕ) (cs : List Call) (t : Terminal)
    → calls (exception_print_field label value false ++ cs) t ≡ calls cs (line label (itoa value) t)
unfolding exception_print_field calls expand directive_text spell
number-calls label value cs t =
    calls-writef (codes "%s%u\n") (Arg.str label ∷ Arg.uint value ∷ []) cs
      (label ++ (itoa value ++ codes "\n")) t refl

hex-calls :
    (label : List ℕ) (value : ℕ) (cs : List Call) (t : Terminal)
    → calls (exception_print_field label value true ++ cs) t
      ≡ calls cs (line label (itoa_hex value) t)
unfolding exception_print_field calls expand directive_text spell
hex-calls label value cs t =
    calls-writef (codes "%s%x\n") (Arg.str label ∷ Arg.uint value ∷ []) cs
      (label ++ (itoa_hex value ++ codes "\n")) t refl

-- Each exception handler reports its exception in red, then the error code in decimal where the
-- processor gives one, and for a page fault first the address in hexadecimal; no formatted write
-- lacks an argument.
pub handlers_lem :
    (fault_address error_code : ℕ) (t : Terminal)
    → (calls divide_error_handler t ≡ some (reported (codes "Divide Error (#0)") t))
      × (calls invalid_opcode_handler t ≡ some (reported (codes "Invalid Opcode (#6)") t))
      × (calls (general_protection_fault_handler error_code) t
          ≡ some (
              line
                (codes "Error code: ")
                (itoa error_code)
                (reported (codes "General Protection Fault (#13)") t)))
      × (calls (page_fault_handler fault_address error_code) t
          ≡ some (
              line (codes "Error code: ") (itoa error_code) (
                line
                  (codes "Address: ")
                  (itoa_hex fault_address)
                  (reported (codes "Page Fault (#14)") t))))
unfolding divide_error_handler invalid_opcode_handler general_protection_fault_handler
    page_fault_handler exception_print_field calls exception_report
handlers_lem fault_address error_code t =
    let code : List Call = exception_print_field (codes "Error code: ") error_code false ++ [] in
    let address : List Call =
      exception_print_field (codes "Address: ") fault_address true ++ code in
    let faulted : Terminal = reported (codes "Page Fault (#14)") t in
    (
      report-calls (codes "Divide Error (#0)") [] t,
      report-calls (codes "Invalid Opcode (#6)") [] t,
      report-calls (codes "General Protection Fault (#13)") code t
          ∙ number-calls (codes "Error code: ") error_code [] _,
      report-calls (codes "Page Fault (#14)") address t
          ∙ hex-calls (codes "Address: ") fault_address code faulted
          ∙ number-calls (codes "Error code: ") error_code [] _,
    )
