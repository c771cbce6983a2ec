-- ===== src/Kernel/Boot.antt =====
-- The system after kmain.
use xenon_os.Base.{
  ℕ, ◌+◌, ◌*◌, ◌/◌, ◌^◌, ◌<◌, ◌≤◌, ◌≡◌, ◌≢◌, refl, true, false, ◌==◌, if◌then◌else◌, some, arith,
  ap, ◌∙◌, add32, List, length, subst, sym,
}
use xenon_os.Multiboot.{Memory, read32, tag_mmap, tag_size}
use xenon_os.Multiboot.Tags.{TagsAt, first_of_type}
use xenon_os.Pmm.{Pmm, frame_count}
use xenon_os.Pmm.Bounds
use xenon_os.Pmm.Frames.{used}
use xenon_os.Pmm.Initialize.{EntriesAt, freed, reserved, pmm_initialize_lem}
use xenon_os.Paging.{Paging, paging_initialize}
use xenon_os.Paging.Boot.{booted-pmm, paging_initialize_lem}
use xenon_os.Paging.Mmu.{IsValid}
use xenon_os.Pmm.Count.{free_frames, free_frames-run}
use xenon_os.Slab.{AddressSpace}
use xenon_os.Slab.Grow.{IsReserved}
use xenon_os.Heap.{heap_initialize}
use xenon_os.Heap.Init.{heap_initialize-paging}
use xenon_os.Threads.{stack_region_base}
use xenon_os.Threads.Boot.{Booted, scheduler_initialize_lem}
use xenon_os.Terminal.Cursor.{IsSynced}
use xenon_os.Shell.Commands.{initialize-Answered}
use xenon_os.Interrupts.{interrupts_initialize}
use xenon_os.Interrupts.Gates.{AreWords, target, stub_for, interrupts_initialize_lem}
use xenon_os.Tss.{Tss}
use xenon_os.Tss.TaskGate.{double_fault_gate, tss_initialize-idt, tss_initialize-enabled}
use xenon_os.Serial.{serial_initialize}
use xenon_os.Timer.{pit_initialize}
use xenon_os.Scheduler.{timer_hz}
use xenon_os.Kernel.{Image, Kernel, set_up_memory, set_up_processor, kmain}
use mathlib.Core.Option
use mathlib.Core.Option.{some-injective}

-- Boot information whose first memory map lies at `tag` and has `n` entries, for walks with `fuel`.
pub record HasMap (m : Memory) (address fuel tag n : ℕ) : Type 0 where
  pub tags : List ℕ
  pub walk : TagsAt m (add32 address (read32 m address)) (add32 address 8) tags
  pub first : first_of_type m tag_mmap tags ≡ tag
  pub proper : 0 < tag
  pub low : tag + 16 < 2 ^ 32
  pub entries : EntriesAt m (read32 m (tag + 8)) (add32 tag (tag_size m tag)) (tag + 16) n
  pub few_tags : length tags < fuel
  pub few_entries : n < fuel

-- Whether a frame is free after the boot.
abbrev pub available : Image → Memory → ℕ → ℕ → ℕ → ℕ
available image m tag n g =
    if reserved image.kernel_start image.kernel_end g
    then 1
    else if freed m (read32 m (tag + 8)) n (tag + 16) g
    then 0
    else 1

-- The frames after pmm_initialize are those after the other two.
set_up_memory_lem :
    (fuel : ℕ) (image : Image) (address tag n boot : ℕ) (s : AddressSpace)
    → Bounds.IsValid s.paging.pmm
    → HasMap s.memory address fuel tag n
    → image.kernel_start < image.kernel_end
    → image.kernel_end < 2 ^ 32
    → image.boot_page_table ≡ boot * 4096
    → image.kernel_start ≤ image.boot_page_table
    → image.boot_page_table < image.kernel_end
    → (space : AddressSpace) × (set_up_memory fuel image address s ≡ some space)
      × IsValid space.paging
      × ((g : ℕ) → g < frame_count → used space.paging.pmm g ≡ available image s.memory tag n g)
unfolding set_up_memory
set_up_memory_lem fuel image address tag n boot s v h order small table table_low table_high =
    let result = λ (g : ℕ) (lt : g < frame_count).
      pmm_initialize_lem fuel s.memory address image.kernel_start image.kernel_end tag g
        s.paging.pmm v h.walk h.first h.proper h.low h.entries h.few_tags h.few_entries order small
        lt in
    let (pmm, done, valid, at_0) = result 0 (omega arith) in
    let paging : Paging =
      paging_initialize image.page_directory image.boot_page_table
        (record s.paging { pmm = pmm }) in
    let space : AddressSpace = heap_initialize image.caches (record s { paging = paging }) in
    let kept : space.paging.pmm ≡ pmm =
      ap (λ (p : Paging). p.pmm)
        (heap_initialize-paging image.caches (record s { paging = paging }))
      ∙ subst
          (λ (t : ℕ).
            (paging_initialize image.page_directory t (record s.paging { pmm = pmm })).pmm ≡ pmm)
          (sym table) (booted-pmm image.page_directory boot (record s.paging { pmm = pmm })) in
    let frames : (g : ℕ) → g < frame_count → used pmm g ≡ available image s.memory tag n g = λ g lt.
      let (other, done', valid', at_g) = result g lt in
      ap (λ (p : Pmm). used p g) (some-injective _ _ (sym done ∙ done')) ∙ at_g in
    let before : Paging = record s.paging { pmm = pmm } in
    let table_used : used pmm boot ≡ 1 =
      frames boot (omega (arith, table)) ∙ ground (arith, table) in
    let tables : IsValid paging =
      subst (λ (t : ℕ). IsValid (paging_initialize image.page_directory t before)) (sym table)
        (paging_initialize_lem image.page_directory boot before valid table_used).0 in
    (
      space,
      rw done refl,
      subst IsValid (sym (heap_initialize-paging image.caches (record s { paging = paging })))
          tables,
      λ g lt. ap (λ (p : Pmm). used p g) kept ∙ frames g lt,
    )

-- The system after the boot.
pub record Running (image : Image) (s : Kernel) : Type 0 where
  pub scheduled :
      Booted image.thread_trampoline image.boot_thread image.idle_loop stack_region_base s.pool
  pub on_screen : IsSynced s.shell.console
  pub interrupts_on : s.tss.interrupts.enabled ≡ true
  pub double_fault : s.tss.interrupts.idt 8 ≡ double_fault_gate
  pub gates : (n : ℕ) → n < 256 → n ≢ 8 → target (s.tss.interrupts.idt n) ≡ stub_for image.stubs n

processor-gates :
    (image : Image) (n : ℕ) (s : Tss)
    → AreWords image.stubs
    → n < 256
    → n ≢ 8
    → target ((set_up_processor image s).interrupts.idt n) ≡ stub_for image.stubs n
unfolding set_up_processor
processor-gates image n s words lt other =
    let apart : (8 == n) ≡ false = ground (arith, other) in
    let idt =
      tss_initialize-idt image.page_directory image.main_tss image.double_fault_tss
        image.double_fault_stack image.double_fault_task_entry
        (record s { interrupts = interrupts_initialize image.stubs image.idt s.interrupts }) n in
    let kept : (set_up_processor image s).interrupts.idt n
        ≡ (interrupts_initialize image.stubs image.idt s.interrupts).idt n =
      idt ∙ rw apart refl in
    ap target kept ∙ (interrupts_initialize_lem image.stubs image.idt n s.interrupts words lt).0

processor-double_fault :
    (image : Image) (s : Tss) → (set_up_processor image s).interrupts.idt 8 ≡ double_fault_gate
unfolding set_up_processor
processor-double_fault image s =
    tss_initialize-idt image.page_directory image.main_tss image.double_fault_tss
      image.double_fault_stack image.double_fault_task_entry
      (record s { interrupts = interrupts_initialize image.stubs image.idt s.interrupts }) 8

processor-on :
    (image : Image) (s : Tss)
    → AreWords image.stubs
    → (set_up_processor image s).interrupts.enabled ≡ true
unfolding set_up_processor
processor-on image s words =
    tss_initialize-enabled image.page_directory image.main_tss image.double_fault_tss
      image.double_fault_stack image.double_fault_task_entry
      (record s { interrupts = interrupts_initialize image.stubs image.idt s.interrupts })
    ∙ (interrupts_initialize_lem image.stubs image.idt 0 s.interrupts words (omega arith)).1

-- Started from a valid frame allocator and static variables that hold their initial values, on a
-- well-formed boot information whose memory map leaves five free frames in a row beside the kernel
-- image, with enough fuel to walk it, and with its own data inside the image, kmain gets through all initializers. The boot thread then runs, in a ring
-- with an idle thread that is ready and whose stack is mapped and written; the console's cursor is in
-- step; interrupts are on, the double fault has its task gate, and every other vector leads to its
-- stub, or nowhere.
pub kmain_lem :
    (fuel : ℕ) (image : Image) (address tag n boot f : ℕ) (s : Kernel)
    → Bounds.IsValid s.pool.space.paging.pmm
    → HasMap s.pool.space.memory address fuel tag n
    → image.kernel_end < 2 ^ 32
    → image.boot_page_table ≡ boot * 4096
    → image.kernel_start ≤ image.boot_page_table
    → image.boot_page_table < image.kernel_end
    → AreWords image.stubs
    → image.kernel_start ≤ image.thread_pool
    → image.thread_pool + 8 ≤ image.kernel_end
    → image.kernel_start ≤ image.boot_thread
    → image.boot_thread < image.kernel_end
    → image.thread_trampoline < 2 ^ 32
    → s.pool.thread_pool_ready ≡ false
    → s.pool.next_stack_vaddr ≡ stack_region_base
    → f + 5 ≤ frame_count
    → ((k : ℕ) → k < 5 → available image s.pool.space.memory tag n (f + k) ≡ 0)
    → (s' : Kernel) × (kmain fuel image address s ≡ some s') × Running image s'
unfolding kmain Option.bind
kmain_lem fuel image address tag n boot f s v h small table table_low table_high words pool_low
      pool_high home_low home_high code new stacks lt free =
    let (shell, shown, synced) = initialize-Answered s.shell in
    let (space, done, valid, frames) =
      set_up_memory_lem fuel image address tag n boot s.pool.space v h (omega arith) small table
        table_low table_high in
    let held : (a : ℕ)
        → image.kernel_start ≤ a
        → a < image.kernel_end
        → used space.paging.pmm (a / 4096) ≡ 1 =
      λ a low high. frames (a / 4096) (omega arith) ∙ ground arith in
    let reserved' : IsReserved image.thread_pool space = record {
      home = λ a low high. held a (omega arith) (omega arith);
      below = omega arith;
      null = frames 0 (omega arith) ∙ ground arith;
    } in
    let plenty : 5 ≤ free_frames space.paging.pmm =
      free_frames-run f 5 space.paging.pmm lt (λ k q. frames (f + k) (omega arith) ∙ free k q) in
    let (pool, created, booted) =
      scheduler_initialize_lem fuel image.thread_pool image.thread_trampoline image.boot_thread
        image.idle_loop (record s.pool { space = space }) (omega (arith, h.few_entries))
        (omega (arith, stacks)) (omega (arith, stacks)) code new valid reserved'
        (held image.boot_thread home_low home_high) plenty in
    (
      record {
        serial = serial_initialize s.serial;
        shell = shell;
        tss = set_up_processor image s.tss;
        pool = pool;
        timer_ports = pit_initialize timer_hz s.timer_ports;
      },
      rw shown (rw done (rw created refl)),
      record {
        scheduled =
            subst
              (λ (a : ℕ). Booted image.thread_trampoline image.boot_thread image.idle_loop a pool)
              stacks booted;
        on_screen = synced;
        interrupts_on = processor-on image s.tss words;
        double_fault = processor-double_fault image s.tss;
        gates = λ n' lt' other. processor-gates image n' s.tss words lt' other;
      },
    )
