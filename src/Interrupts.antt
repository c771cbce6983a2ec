-- ===== src/Interrupts.antt =====
-- src/cpu/interrupts.c: the interrupt descriptor table, the interrupt controllers and the exception
-- handlers. The addresses of the assembly stubs and of the table are arguments; the bytes written to
-- ports are logged with their port, the newest first. The endless loop of exception_halt has no step.
pub mod Gates
pub mod Exceptions
pub mod Tests
use xenon_os.Base.{
  ℕ, zero, suc, ◌+◌, ◌-◌, ◌*◌, ◌/◌, ◌%◌, ◌^◌, ◌++◌, ◌==◌, if◌then◌else◌, Bool, true, false, Option,
  List, [], ◌∷◌, update, bit_and, codes,
}
use xenon_os.Terminal.{Terminal, Color, Arg}
use mathlib.Core.Option
use xenon_os.Terminal.Cursor.{Call}
use xenon_os.Scheduler.{Scheduler, scheduler_yield}
use xenon_os.Timer.{pit_tick}

-- struct idt_entry
pub record Gate : Type 0 where
  pub offset_low : ℕ
  pub selector : ℕ
  pub zero_byte : ℕ
  pub type_attr : ℕ
  pub offset_high : ℕ

-- The static variables, and the log of the ports; the last field is the interrupt flag.
pub record Interrupts : Type 0 where
  pub idt : ℕ → Gate
  pub limit : ℕ
  pub base : ℕ
  pub ports : List (ℕ × ℕ)
  pub enabled : Bool

abbrev pub outb : ℕ → ℕ → Interrupts → Interrupts
outb port value s = record s { ports = (port, value) ∷ s.ports }

pub interrupt_gate : ℕ → Gate
interrupt_gate handler = record {
  offset_low = bit_and handler 0xFFFF;
  selector = 0x08;
  zero_byte = 0;
  type_attr = 0x8E;
  offset_high = bit_and (handler / 2 ^ 16) 0xFFFF;
}

pub idt_set_gate : ℕ → ℕ → Interrupts → Interrupts
idt_set_gate number handler s = record s { idt = update s.idt number (interrupt_gate handler) }

unfoldable pub interrupts_set_task_gate : ℕ → ℕ → Interrupts → Interrupts
interrupts_set_task_gate number selector s = record s {
  idt = update s.idt number (record {
    offset_low = 0;
    selector = selector;
    zero_byte = 0;
    type_attr = 0x85;
    offset_high = 0;
  });
}

pub pic_remap : Interrupts → Interrupts
pic_remap s = outb 0xA1 0xFF (
    outb 0x21 0xFC (
      outb 0xA1 0x01 (
        outb 0x21 0x01 (
          outb 0xA1 0x02 (
            outb 0x21 0x04
              (outb 0xA1 0x28 (outb 0x21 0x20 (outb 0xA0 0x11 (outb 0x20 0x11 s)))))))))

pub absent : Gate
absent = record { offset_low = 0; selector = 0; zero_byte = 0; type_attr = 0; offset_high = 0 }

-- The loop that clears the table, by the rounds left.
pub clear_idt : ℕ → ℕ → Interrupts → Interrupts
clear_idt zero i s = s
clear_idt (suc left) i s = clear_idt left (i + 1) (record s { idt = update s.idt i absent })

-- The stubs of src/cpu/interrupts.asm.
pub record Stubs : Type 0 where
  pub divide_error_isr : ℕ
  pub invalid_opcode_isr : ℕ
  pub general_protection_fault_isr : ℕ
  pub page_fault_isr : ℕ
  pub timer_isr : ℕ
  pub keyboard_isr : ℕ

pub set_gates : Stubs → Interrupts → Interrupts
set_gates stubs s = idt_set_gate 33 stubs.keyboard_isr (
    idt_set_gate 32 stubs.timer_isr (
      idt_set_gate 14 stubs.page_fault_isr (
        idt_set_gate 13 stubs.general_protection_fault_isr
          (idt_set_gate 6 stubs.invalid_opcode_isr (idt_set_gate 0 stubs.divide_error_isr s)))))

pub interrupts_initialize : Stubs → ℕ → Interrupts → Interrupts
interrupts_initialize stubs idt_address s =
    let loaded = record (set_gates stubs (clear_idt 256 0 s)) {
      limit = 256 * 8 - 1;
      base = idt_address;
    } in
    record (pic_remap loaded) { enabled = true }

-- The handlers as calls of the console.
pub exception_report : List ℕ → List Call
exception_report name =
    Call.set_color Color.light_red Color.black
    ∷ Call.writef (codes "\n\nCPU says we're cooked. You might wanna look into this: %s\n")
        (Arg.str name ∷ [])
    ∷ []

pub exception_print_field : List ℕ → ℕ → Bool → List Call
exception_print_field label value hex =
    Call.writef (if hex then codes "%s%x\n" else codes "%s%u\n")
      (Arg.str label ∷ Arg.uint value ∷ [])
    ∷ []

pub divide_error_handler : List Call
divide_error_handler = exception_report (codes "Divide Error (#0)")

pub invalid_opcode_handler : List Call
invalid_opcode_handler = exception_report (codes "Invalid Opcode (#6)")

pub general_protection_fault_handler : ℕ → List Call
general_protection_fault_handler error_code =
    exception_report (codes "General Protection Fault (#13)")
    ++ exception_print_field (codes "Error code: ") error_code false

-- The address in CR2 comes first.
pub page_fault_handler : ℕ → ℕ → List Call
page_fault_handler fault_address error_code =
    exception_report (codes "Page Fault (#14)")
    ++ exception_print_field (codes "Address: ") fault_address true
    ++ exception_print_field (codes "Error code: ") error_code false

-- `fuel` is that of scheduler_yield; the first component is the tick counter.
pub timer_handler : ℕ → ℕ × Scheduler → Option (ℕ × (Option (ℕ × ℕ) × Scheduler))
timer_handler fuel (pit_ticks, s) =
    let ticks = pit_tick pit_ticks in Option.map (λ r. (ticks, r)) (scheduler_yield fuel ticks s)
