-- ===== src/Kernel/Tests.antt =====
-- A boot with 4 MB of memory and a kernel image of 1 MB, and the theorem on it.
use xenon_os.Base.{ℕ, zero, suc, ◌<◌, ◌+◌, ◌*◌, ◌≡◌, refl, some, false, [], arith}
use xenon_os.Multiboot.Tags.{first_of_type}
use xenon_os.Pmm.{entry_available}
use xenon_os.Pmm.Initialize.{freed}
use xenon_os.Pmm.Tests.{booted, booted-IsValid, boot_image, boot_tags, boot_entries}
use xenon_os.Slab.{AddressSpace}
use xenon_os.Scheduler.{Thread, ready}
use xenon_os.Threads.{stack_region_base}
use xenon_os.Interrupts.Tests.{stubs}
use xenon_os.Tss.Tests.{cold}
use xenon_os.Shell.Tests.{session}
use xenon_os.Kernel.{Image, Kernel, kmain}
use xenon_os.Kernel.Boot.{available, HasMap, Running, kmain_lem}

abbrev image : Image
image = record {
  kernel_start = 0x100000;
  kernel_end = 0x200000;
  page_directory = 0x140000;
  boot_page_table = 0x130 * 4096;
  caches = λ bin. 0x150000 + bin * 8;
  stubs = stubs;
  idt = 0x160000;
  main_tss = 0x170000;
  double_fault_tss = 0x171000;
  double_fault_stack = 0x172000;
  double_fault_task_entry = 0x102000;
  thread_pool = 0x110000;
  thread_trampoline = 0x103000;
  boot_thread = 0x120000;
  idle_loop = 0x104000;
}

abbrev no_thread : Thread
no_thread = record {
  id = 0;
  esp = 0;
  mem = 0;
  state = ready;
  next = 0;
  entry = 0;
  wake_at = 0;
  stack_pages = 0;
}

abbrev loaded : AddressSpace
loaded = record {
  paging = record { pmm = booted; page_directory = λ i. 0; frames = λ frame i. 0; flushed = [] };
  memory = boot_image;
}

abbrev started : Kernel
started = record {
  serial = record { statuses = []; sent = [] };
  shell = session;
  tss = cold;
  pool = record {
    space = loaded;
    scheduler = record { threads = λ p. no_thread; current = 0; destroyed = [] };
    thread_pool_ready = false;
    next_stack_vaddr = stack_region_base;
    next_thread_id = 1;
  };
  timer_ports = [];
}

boot_map : HasMap boot_image 0x400 2 0x408 1
unfolding first_of_type
boot_map = record {
  tags = _;
  walk = boot_tags;
  first = refl;
  proper = omega arith;
  low = omega arith;
  entries = boot_entries;
  few_tags = omega arith;
  few_entries = omega arith;
}

five_free : (k : ℕ) → k < 5 → available image boot_image 0x408 1 (0x300 + k) ≡ 0
unfolding freed entry_available
five_free zero q = refl
five_free (suc zero) q = refl
five_free (suc (suc zero)) q = refl
five_free (suc (suc (suc zero))) q = refl
five_free (suc (suc (suc (suc zero)))) q = refl
five_free (suc (suc (suc (suc (suc k))))) q = absurd (omega arith)

kmain_lem_example : (s' : Kernel) × (kmain 2 image 0x400 started ≡ some s') × Running image s'
unfolding freed entry_available
kmain_lem_example =
    kmain_lem 2 image 0x400 0x408 1 0x130 0x300 started booted-IsValid boot_map (omega arith) refl
      (omega arith) (omega arith)
      (record {
        divide_error = omega arith;
        invalid_opcode = omega arith;
        general_protection_fault = omega arith;
        page_fault = omega arith;
        timer = omega arith;
        keyboard = omega arith;
      })
      (omega arith) (omega arith) (omega arith) (omega arith) (omega arith) refl refl (omega arith)
      five_free
