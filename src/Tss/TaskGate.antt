-- ===== src/Tss/TaskGate.antt =====
-- What tss_initialize does to the interrupt table.
use xenon_os.Base.{ℕ, ◌≡◌, refl, ◌==◌, if◌then◌else◌}
use xenon_os.Interrupts.{Gate, interrupts_set_task_gate}
use xenon_os.Tss.{Tss, gdt_df_tss_selector, gdt_set_descriptor, tss_initialize}

-- A 32-bit task gate to the segment of the double fault task.
abbrev pub double_fault_gate : Gate
double_fault_gate = record {
  offset_low = 0;
  selector = gdt_df_tss_selector;
  zero_byte = 0;
  type_attr = 0x85;
  offset_high = 0;
}

module _ (cr3 main_address df_address stack entry : ℕ) (s : Tss) where
  -- The gate stands at the vector 8, and the other vectors keep theirs.
  pub tss_initialize-idt :
      (n : ℕ)
      → (tss_initialize cr3 main_address df_address stack entry s).interrupts.idt n
        ≡ (if 8 == n then double_fault_gate else s.interrupts.idt n)
  unfolding tss_initialize gdt_set_descriptor interrupts_set_task_gate
  tss_initialize-idt n = refl

  -- The interrupt flag stays.
  pub tss_initialize-enabled :
      (tss_initialize cr3 main_address df_address stack entry s).interrupts.enabled
      ≡ s.interrupts.enabled
  unfolding tss_initialize gdt_set_descriptor interrupts_set_task_gate
  tss_initialize-enabled = refl
