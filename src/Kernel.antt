-- ===== src/Kernel.antt =====
-- src/kernel.c: kmain, which calls the initializers of the parts in turn, up to its endless loop.
pub mod Boot
mod Tests
use xenon_os.Base.{ℕ, Option, List}
use xenon_os.Pmm.{pmm_initialize}
use xenon_os.Paging.{paging_initialize}
use xenon_os.Slab.{AddressSpace}
use xenon_os.Heap.{heap_initialize}
use xenon_os.Scheduler.{timer_hz}
use xenon_os.Threads.{ThreadPool, scheduler_initialize}
use xenon_os.Timer.{pit_initialize}
use xenon_os.Interrupts.{Stubs, interrupts_initialize}
use xenon_os.Tss.{Tss, tss_initialize}
use xenon_os.Serial.{Serial, serial_initialize}
use xenon_os.Shell.{Shell, shell_initialize}
use mathlib.Core.Option

-- The addresses of the kernel image, of its static variables and of its assembly.
pub record Image : Type 0 where
  pub kernel_start : ℕ
  pub kernel_end : ℕ
  pub page_directory : ℕ
  pub boot_page_table : ℕ
  pub caches : ℕ → ℕ
  pub stubs : Stubs
  pub idt : ℕ
  pub main_tss : ℕ
  pub double_fault_tss : ℕ
  pub double_fault_stack : ℕ
  pub double_fault_task_entry : ℕ
  pub thread_pool : ℕ
  pub thread_trampoline : ℕ
  pub boot_thread : ℕ
  pub idle_loop : ℕ

-- The states of the parts; the interrupt table is in `tss`, and the last field is the timer's ports.
pub record Kernel : Type 0 where
  pub serial : Serial
  pub shell : Shell
  pub tss : Tss
  pub pool : ThreadPool
  pub timer_ports : List (ℕ × ℕ)

-- The interrupts and the segments: CR3 holds the page directory after paging_initialize.
pub set_up_processor : Image → Tss → Tss
set_up_processor image s =
    tss_initialize image.page_directory image.main_tss image.double_fault_tss
      image.double_fault_stack image.double_fault_task_entry
      (record s { interrupts = interrupts_initialize image.stubs image.idt s.interrupts })

-- pmm_initialize, paging_initialize and heap_initialize.
pub set_up_memory : ℕ → Image → ℕ → AddressSpace → Option AddressSpace
set_up_memory fuel image multiboot_info s =
    Option.map
      (λ pmm.
        let paging =
          paging_initialize image.page_directory image.boot_page_table
            (record s.paging { pmm = pmm }) in
        heap_initialize image.caches (record s { paging = paging }))
      (pmm_initialize fuel s.memory multiboot_info image.kernel_start image.kernel_end s.paging.pmm)

-- `fuel` is that of the walks over the boot information and over the slabs.
pub kmain : ℕ → Image → ℕ → Kernel → Option Kernel
kmain fuel image multiboot_info s = Option.bind (shell_initialize s.shell) λ shell.
    Option.bind (set_up_memory fuel image multiboot_info s.pool.space) λ space.
      Option.map
        (λ pool. record {
          serial = serial_initialize s.serial;
          shell = shell;
          tss = set_up_processor image s.tss;
          pool = pool;
          timer_ports = pit_initialize timer_hz s.timer_ports;
        })
        (scheduler_initialize fuel image.thread_pool image.thread_trampoline image.boot_thread
          image.idle_loop (record s.pool { space = space }))
