-- ===== src/Interrupts/Tests.antt =====
-- Stubs at some addresses, and the theorems on them.
use xenon_os.Base.{◌≡◌, true, false, arith, []}
use xenon_os.Interrupts.{Interrupts, Stubs, absent, interrupts_initialize}
use xenon_os.Interrupts.Gates.{target, stub_for, interrupts_initialize_lem}

abbrev pub stubs : Stubs
stubs = record {
  divide_error_isr = 0x101000;
  invalid_opcode_isr = 0x101010;
  general_protection_fault_isr = 0x101020;
  page_fault_isr = 0x101030;
  timer_isr = 0x101040;
  keyboard_isr = 0x101050;
}

abbrev off : Interrupts
off = record { idt = λ n. absent; limit = 0; base = 0; ports = []; enabled = false }

interrupts_initialize_lem_example :
    (target ((interrupts_initialize stubs 0x200000 off).idt 14) ≡ stub_for stubs 14)
    × ((interrupts_initialize stubs 0x200000 off).enabled ≡ true)
interrupts_initialize_lem_example =
    interrupts_initialize_lem stubs 0x200000 14 off
      (record {
        divide_error = omega arith;
        invalid_opcode = omega arith;
        general_protection_fault = omega arith;
        page_fault = omega arith;
        timer = omega arith;
        keyboard = omega arith;
      })
      (omega arith)
