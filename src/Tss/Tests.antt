-- ===== src/Tss/Tests.antt =====
-- The table of the boot code, and the theorem on its task state segment.
use xenon_os.Base.{ℕ, ◌≡◌, ◌≢◌, arith, [], false}
use xenon_os.Interrupts.{absent}
use xenon_os.Tss.{Tss, empty_tss, gdt_set_descriptor}
use xenon_os.Tss.Descriptor.{base_of, limit_of, access_of, granularity_of, gdt_set_descriptor_lem}

abbrev pub cold : Tss
cold = record {
  gdt = λ i. 0;
  main_tss = empty_tss;
  double_fault_tss = empty_tss;
  task_register = 0;
  interrupts = record { idt = λ n. absent; limit = 0; base = 0; ports = []; enabled = false };
}

gdt_set_descriptor_lem_example :
    (base_of ((gdt_set_descriptor 3 0x12345678 103 0x89 0 cold).gdt 3) ≡ 0x12345678)
    × (limit_of ((gdt_set_descriptor 3 0x12345678 103 0x89 0 cold).gdt 3) ≡ 103)
    × (access_of ((gdt_set_descriptor 3 0x12345678 103 0x89 0 cold).gdt 3) ≡ 0x89)
    × (granularity_of ((gdt_set_descriptor 3 0x12345678 103 0x89 0 cold).gdt 3) ≡ 0)
    × (◌≢◌ {A = ℕ} 4 3 → (gdt_set_descriptor 3 0x12345678 103 0x89 0 cold).gdt 4 ≡ cold.gdt 4)
gdt_set_descriptor_lem_example =
    gdt_set_descriptor_lem 3 0x12345678 103 0x89 0 4 cold (omega arith) (omega arith) (omega arith)
      (omega arith)
