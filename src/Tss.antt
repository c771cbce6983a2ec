-- ===== src/Tss.antt =====
-- src/cpu/tss.c: the segment descriptors of the two task state segments, and the double-fault task.
-- The addresses of the segments, of the stack and of the entry point are arguments.
pub mod Descriptor
pub mod TaskGate
pub mod Tests
use xenon_os.Base.{
  ℕ, ◌+◌, ◌-◌, ◌*◌, ◌/◌, ◌^◌, List, [], ◌∷◌, ◌++◌, update, bit_and, bit_or, codes, add32, false,
}
use xenon_os.Terminal.Cursor.{Call}
use xenon_os.Interrupts.{
  Interrupts, interrupts_set_task_gate, exception_report, exception_print_field,
}

-- sizeof(struct tss_entry)
abbrev pub tss_size : ℕ
tss_size = 104

-- The fields of struct tss_entry that are not left zero.
pub record TssEntry : Type 0 where
  pub cr3 : ℕ
  pub eip : ℕ
  pub eflags : ℕ
  pub esp : ℕ
  pub es : ℕ
  pub cs : ℕ
  pub ss : ℕ
  pub ds : ℕ
  pub fs : ℕ
  pub gs : ℕ

abbrev pub gdt_code_selector : ℕ
gdt_code_selector = 0x08

abbrev pub gdt_data_selector : ℕ
gdt_data_selector = 0x10

abbrev pub gdt_main_tss_selector : ℕ
gdt_main_tss_selector = 0x18

abbrev pub gdt_df_tss_selector : ℕ
gdt_df_tss_selector = 0x20

-- The table of boot.asm, the two segments, the task register and the interrupt table.
pub record Tss : Type 0 where
  pub gdt : ℕ → ℕ
  pub main_tss : TssEntry
  pub double_fault_tss : TssEntry
  pub task_register : ℕ
  pub interrupts : Interrupts

-- The value that gdt_set_descriptor stores.
pub descriptor : ℕ → ℕ → ℕ → ℕ → ℕ
descriptor base limit access granularity =
    bit_or
      (bit_or
        (bit_or
          (bit_or (bit_or (bit_and limit 0xFFFF) (bit_and base 0xFFFFFF * 2 ^ 16))
            (access * 2 ^ 40))
          (bit_and (limit / 2 ^ 16) 0xF * 2 ^ 48))
        (bit_and granularity 0xF * 2 ^ 52))
      (bit_and (base / 2 ^ 24) 0xFF * 2 ^ 56)

pub gdt_set_descriptor : ℕ → ℕ → ℕ → ℕ → ℕ → Tss → Tss
gdt_set_descriptor index base limit access granularity s = record s {
  gdt = update s.gdt index (descriptor base limit access granularity);
}

abbrev pub empty_tss : TssEntry
empty_tss = record {
  cr3 = 0;
  eip = 0;
  eflags = 0;
  esp = 0;
  es = 0;
  cs = 0;
  ss = 0;
  ds = 0;
  fs = 0;
  gs = 0;
}

-- CR3, and the addresses of main_tss, double_fault_tss, double_fault_stack and of
-- double_fault_task_entry.
pub tss_initialize : ℕ → ℕ → ℕ → ℕ → ℕ → Tss → Tss
tss_initialize cr3 main_address df_address stack entry s =
    let with_main =
      gdt_set_descriptor 3 main_address (tss_size - 1) 0x89 0x00
        (record s { main_tss = empty_tss }) in
    let with_fault = record with_main {
      double_fault_tss = record {
        cr3 = cr3;
        eip = entry;
        esp = add32 stack 4096;
        eflags = 0x2;
        cs = gdt_code_selector;
        ss = gdt_data_selector;
        ds = gdt_data_selector;
        es = gdt_data_selector;
        fs = gdt_data_selector;
        gs = gdt_data_selector;
      };
    } in
    let described = gdt_set_descriptor 4 df_address (tss_size - 1) 0x89 0x00 with_fault in
    record described {
      task_register = gdt_main_tss_selector;
      interrupts = interrupts_set_task_gate 8 gdt_df_tss_selector described.interrupts;
    }

pub double_fault_task_handler : ℕ → List Call
double_fault_task_handler error_code =
    exception_report (codes "Double Fault (#8, task switch)")
    ++ exception_print_field (codes "Error code: ") error_code false
