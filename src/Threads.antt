-- ===== src/Threads.antt =====
-- src/tasks/thread.c, thread_create_sized and thread_destroy, and scheduler_initialize of
-- src/tasks/scheduler.c: thread structures from a slab cache, stacks from pages of a region of their
-- own. The fields of a thread are those of Scheduler, apart from the word that links a free object.
pub mod Stack
pub mod Create
pub mod Destroy
pub mod Boot
mod Tests
use xenon_os.Base.{
  ℕ, zero, suc, ◌+◌, ◌-◌, ◌*◌, ◌/◌, ◌==◌, if◌then◌else◌, Option, none, some, Bool, true, false,
  update, add32, sub32, mul32,
}
use xenon_os.Pmm.{pmm_alloc, page_size}
use xenon_os.Paging.{Paging, paging_map}
use xenon_os.Paging.Release.{release_page}
use xenon_os.Slab.{AddressSpace, store, slab_cache_init, slab_alloc, slab_free}
use xenon_os.Scheduler.{Thread, Scheduler, ready, running, scheduler_add}
use mathlib.Core.Option

abbrev pub default_stack_pages : ℕ
default_stack_pages = 4

abbrev pub stack_region_base : ℕ
stack_region_base = 0xD0000000

-- sizeof(void *) and sizeof(thread_t)
abbrev pub pointer_size : ℕ
pointer_size = 4

abbrev pub thread_size : ℕ
thread_size = 32

-- The static variables of thread.c, with what they stand on.
pub record ThreadPool : Type 0 where
  pub space : AddressSpace
  pub scheduler : Scheduler
  pub thread_pool_ready : Bool
  pub next_stack_vaddr : ℕ
  pub next_thread_id : ℕ

pub stack_frame_vaddr : ℕ → ℕ → ℕ
stack_frame_vaddr stack_vbase i = add32 stack_vbase (mul32 i page_size)

-- `if (!thread_pool_ready)`, with the address of thread_pool as an argument.
pub ready_pool : ℕ → ThreadPool → ThreadPool
ready_pool pool t =
    if t.thread_pool_ready
    then t
    else record t { space = slab_cache_init pool thread_size t.space; thread_pool_ready = true }

-- The loop over the pages of the stack, by the rounds left.
pub map_stack : ℕ → ℕ → ℕ → Paging → Paging
map_stack zero i stack_vbase s = s
map_stack (suc left) i stack_vbase s =
    let (frame, pmm') = pmm_alloc s.pmm in
    map_stack left (i + 1) stack_vbase
      (paging_map (stack_frame_vaddr stack_vbase i) frame 3 (record s { pmm = pmm' }))

-- `stack_top -= POINTER_SIZE; *(void **)stack_top = word`
pub push_word : ℕ → ℕ × AddressSpace → ℕ × AddressSpace
push_word word (stack_top, s) = let top = sub32 stack_top pointer_size in (top, store top word s)

-- The return address, and the four registers that context_switch restores.
pub prepare_stack : ℕ → ℕ × AddressSpace → ℕ × AddressSpace
prepare_stack thread_trampoline s =
    push_word 0 (push_word 0 (push_word 0 (push_word 0 (push_word thread_trampoline s))))

-- thread_create_sized after slab_alloc has returned `thread`. The words are stored also where a page of the
-- stack could not be mapped; the fault, or the write through a wrong page, is not modelled.
pub set_up : ℕ → ℕ → ℕ → ℕ → ThreadPool → ThreadPool
set_up thread_trampoline entry stack_pages thread t =
    let vbase = t.next_stack_vaddr in
    let paging = map_stack stack_pages 0 vbase t.space.paging in
    let (esp, space) =
      prepare_stack thread_trampoline
        (add32 vbase (mul32 stack_pages page_size), record t.space { paging = paging }) in
    record t {
      space = space;
      next_stack_vaddr = add32 vbase (mul32 (add32 stack_pages 1) page_size);
      next_thread_id = add32 t.next_thread_id 1;
      scheduler = record t.scheduler {
        threads = update t.scheduler.threads thread (record (t.scheduler.threads thread) {
          mem = vbase;
          stack_pages = stack_pages;
          esp = esp;
          id = t.next_thread_id;
          state = ready;
          next = 0;
          entry = entry;
        });
      };
    }

-- The addresses of thread_pool and of thread_trampoline come first; `fuel` is that of slab_alloc.
pub thread_create_sized : ℕ → ℕ → ℕ → ℕ → ℕ → ThreadPool → Option (ℕ × ThreadPool)
thread_create_sized fuel pool thread_trampoline entry stack_pages t =
    let t' = ready_pool pool t in
    Option.map
      (λ r.
        let (thread, space) = r in
        let allocated = record t' { space = space } in
        if thread == 0
        then (0, allocated)
        else (thread, set_up thread_trampoline entry stack_pages thread allocated))
      (slab_alloc fuel pool t'.space)

pub thread_create : ℕ → ℕ → ℕ → ℕ → ThreadPool → Option (ℕ × ThreadPool)
thread_create fuel pool thread_trampoline entry =
    thread_create_sized fuel pool thread_trampoline entry default_stack_pages

-- The loop of thread_destroy, by the rounds left.
pub release_stack : ℕ → ℕ → ℕ → Paging → Paging
release_stack zero i stack_vbase s = s
release_stack (suc left) i stack_vbase s =
    release_stack left (i + 1) stack_vbase (release_page (stack_frame_vaddr stack_vbase i) s)

pub thread_destroy : ℕ → ℕ → ℕ → ThreadPool → Option ThreadPool
thread_destroy fuel pool thread t =
    let descriptor = t.scheduler.threads thread in
    let paging = release_stack descriptor.stack_pages 0 descriptor.mem t.space.paging in
    Option.map (λ space. record t { space = space })
      (slab_free fuel pool thread (record t.space { paging = paging }))

-- The addresses of boot_thread and of idle_loop come as arguments.
pub scheduler_initialize : ℕ → ℕ → ℕ → ℕ → ℕ → ThreadPool → Option ThreadPool
scheduler_initialize fuel pool thread_trampoline boot_thread idle_loop t =
    let threads = t.scheduler.threads in
    let booted = record t {
      scheduler = record t.scheduler {
        current = boot_thread;
        threads =
            update threads boot_thread
              (record (threads boot_thread) { id = 0; state = running; next = boot_thread });
      };
    } in
    Option.map
      (λ r. let (idle, t') = r in record t' { scheduler = scheduler_add idle t'.scheduler })
      (thread_create_sized fuel pool thread_trampoline idle_loop 1 booted)
