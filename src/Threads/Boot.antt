-- ===== src/Threads/Boot.antt =====
-- scheduler_initialize: the ring of the boot thread and the idle thread.
use xenon_os.Base.{
  ℕ, ◌+◌, ◌/◌, ◌*◌, ◌%◌, ◌^◌, ◌<◌, ◌≤◌, ◌≡◌, inl, inr, ◌≢◌, refl, some, arith, ap, update-same, ◌∙◌,
  subst, sym, [], ◌∷◌, true, false, ◌==◌, update,
}
use xenon_os.Pmm.{frame_count}
use xenon_os.Pmm.Bounds
use xenon_os.Pmm.Frames.{used}
use xenon_os.Slab.{AddressSpace, slab_cache_init}
use xenon_os.Slab.Init.{slab_cache_init_lem}
use xenon_os.Slab.Invariant.{IsCache}
use xenon_os.Slab.Grow.{IsReserved}
use xenon_os.Slab.Alloc.{slab_alloc-first}
use xenon_os.Scheduler.{Thread, ready, running, scheduler_add}
use xenon_os.Scheduler.Ring.{IsRing, scheduler_add-IsRing, scheduler_add-kept, scheduler_add-esp}
use xenon_os.Threads.{
  ThreadPool, ready_pool, set_up, map_stack, thread_create_sized, thread_size, scheduler_initialize,
}
use xenon_os.Threads.Create.{Prepared, set_up_lem}
use xenon_os.Threads.Stack.{map_stack-Spends, map_stack-Backed}
use xenon_os.Slab.Tables.{slab_alloc-Kept}
use xenon_os.Paging.{Paging}
use xenon_os.Paging.Mmu.{IsValid, translate}
use xenon_os.Pmm.{Pmm}
use xenon_os.Pmm.Alloc.{pmm_alloc-cases}
use xenon_os.Pmm.Count.{free_frames, free_frames-none}

-- The boot thread runs, and the idle thread is the other one of the ring. The idle thread's stack
-- page is mapped, and holds what the first switch to it finds.
pub record Booted (thread_trampoline boot_thread idle_loop stack_page : ℕ) (t : ThreadPool)
    : Type 0 where
  pub idle : ℕ
  pub current : t.scheduler.current ≡ boot_thread
  pub ring : IsRing t.scheduler (idle ∷ [])
  pub boot_state : (t.scheduler.threads boot_thread).state ≡ running
  pub idle_state : (t.scheduler.threads idle).state ≡ ready
  pub idle_entry : (t.scheduler.threads idle).entry ≡ idle_loop
  pub idle_esp : (t.scheduler.threads idle).esp + 20 ≡ stack_page + 4096
  pub idle_frame : ℕ
  pub idle_stack : translate t.space.paging stack_page ≡ some (idle_frame * 4096)
  pub idle_words : Prepared thread_trampoline (t.scheduler.threads idle).esp t.space

abbrev booted : ℕ → ThreadPool → ThreadPool
booted boot_thread t = record t {
  scheduler = record t.scheduler {
    current = boot_thread;
    threads =
        update t.scheduler.threads boot_thread (record (t.scheduler.threads boot_thread) {
          id = 0;
          state = running;
          next = boot_thread;
        });
  };
}

alone : (boot_thread : ℕ) (t : ThreadPool) → IsRing (booted boot_thread t).scheduler []
alone boot_thread t = record {
  chain = ap (λ (d : Thread). d.next) (update-same t.scheduler.threads boot_thread _);
  distinct = (tt, tt);
}

some_frame :
    (p : Pmm) → Bounds.IsValid p → 5 ≤ free_frames p → (f : ℕ) × (f < frame_count) × (used p f ≡ 0)
some_frame p v plenty = elim (pmm_alloc-cases v) [
  | inl (_, all_used) ↦ absurd (omega (arith, plenty, free_frames-none p all_used))
  | inr (f, lt, _, free, _) ↦ (f, lt, free)
]

-- A stack of one page is mapped, if a frame is left after it.
stack_page :
    (vbase : ℕ) (s : Paging)
    → vbase % 4096 ≡ 0
    → vbase + 8192 ≤ 0xFFC00000
    → IsValid s
    → 1 ≤ free_frames (map_stack 1 0 vbase s).pmm
    → (frame : ℕ) × (translate (map_stack 1 0 vbase s) vbase ≡ some (frame * 4096))
stack_page vbase s al room v left =
    let gone = free_frames-none (map_stack 1 0 vbase s).pmm in
    elim (map_stack-Backed 1 0 vbase s al (omega arith) v) [
      | inr all_used ↦ absurd (omega (arith, left, gone all_used))
      | inl b ↦ elim (b.page 0 (omega arith) (omega arith)) [
        | inr (all_used, _) ↦ absurd (omega (arith, left, gone all_used))
        | inl seen ↦ (
          b.frame 0,
          subst (λ (a : ℕ). translate (map_stack 1 0 vbase s) a ≡ some (b.frame 0 * 4096))
              (omega arith) seen,
        )
      ]
    ]

-- Before any thread exists, with valid page tables and while five frames are free, scheduler_initialize
-- ends, and leaves the boot thread running in a ring with an idle thread that is ready and has its stack.
pub scheduler_initialize_lem :
    (fuel pool thread_trampoline boot_thread idle_loop : ℕ) (t : ThreadPool)
    → 0 < fuel
    → t.next_stack_vaddr % 4096 ≡ 0
    → t.next_stack_vaddr + 8192 ≤ 0xFFC00000
    → thread_trampoline < 2 ^ 32
    → t.thread_pool_ready ≡ false
    → IsValid t.space.paging
    → IsReserved pool t.space
    → used t.space.paging.pmm (boot_thread / 4096) ≡ 1
    → 5 ≤ free_frames t.space.paging.pmm
    → (t' : ThreadPool) × (scheduler_initialize fuel pool thread_trampoline boot_thread idle_loop t
        ≡ some t')
      × Booted thread_trampoline boot_thread idle_loop t.next_stack_vaddr t'
unfolding scheduler_initialize thread_create_sized ready_pool slab_cache_init
scheduler_initialize_lem fuel pool thread_trampoline boot_thread idle_loop t enough al room code new
      tables reserved home plenty =
    let (f, lt, free) = some_frame t.space.paging.pmm tables.allocator plenty in
    let empty : AddressSpace = slab_cache_init pool thread_size t.space in
    let cached : IsCache pool thread_size empty [] =
      slab_cache_init_lem pool thread_size t.space (omega arith) tables.allocator in
    let reserved' : IsReserved pool empty = record {
      home = reserved.home;
      below = reserved.below;
      null = reserved.null;
    } in
    let first =
      slab_alloc-first fuel pool thread_size f empty (omega arith) (omega arith) enough reserved'
        cached lt free in
    let x : ℕ = first.object in
    let s' : AddressSpace = first.after in
    let apart : x ≢ boot_thread = λ e. omega (
      arith,
      first.fresh,
      first.inside,
      ap (used t.space.paging.pmm) first.inside,
      home,
      ap (λ (a : ℕ). used t.space.paging.pmm (a / 4096)) e,
    ) in
    let pooled : ThreadPool = record (booted boot_thread t) {
      space = s';
      thread_pool_ready = true;
    } in
    let (created, words, paging) =
      set_up_lem thread_trampoline idle_loop 1 x pooled (omega arith) (omega (arith, room)) code in
    let (tables', two) = slab_alloc-Kept fuel pool x empty s' tables first.done in
    let stack = map_stack-Spends 1 0 t.next_stack_vaddr s'.paging tables'.allocator in
    let left : 1 ≤ free_frames (map_stack 1 0 t.next_stack_vaddr s'.paging).pmm =
      omega (arith, plenty, two, stack) in
    let (frame, seen) = stack_page t.next_stack_vaddr s'.paging al room tables' left in
    let t1 : ThreadPool = set_up thread_trampoline idle_loop 1 x pooled in
    let not_null : (x == 0) ≡ false = ground (arith, first.proper) in
    let boot_kept = created.others boot_thread (λ e. apart (sym e)) in
    let here =
      update-same t.scheduler.threads boot_thread (record (t.scheduler.threads boot_thread) {
        id = 0;
        state = running;
        next = boot_thread;
      }) in
    let ring : IsRing t1.scheduler [] = record {
      chain =
          subst (λ (c : ℕ). (t1.scheduler.threads c).next ≡ c) (sym created.current)
            (ap (λ (d : Thread). d.next) boot_kept ∙ ap (λ (d : Thread). d.next) here);
      distinct = (tt, tt);
    } in
    let added = λ (p : ℕ). scheduler_add-kept x p t1.scheduler in
    (
      record t1 { scheduler = scheduler_add x t1.scheduler },
      rw new (rw first.done (rw not_null refl)),
      record {
        idle = x;
        current = (added 0).2 ∙ created.current;
        ring = scheduler_add-IsRing x t1.scheduler [] ring ((λ e. apart (e ∙ created.current)), tt);
        boot_state =
            (added boot_thread).0
            ∙ ap (λ (d : Thread). d.state) boot_kept
            ∙ ap (λ (d : Thread). d.state) here;
        idle_state = (added x).0 ∙ created.state;
        idle_entry = (added x).1 ∙ created.entry_point;
        idle_esp = ap (λ (e : ℕ). e + 20) (scheduler_add-esp x x t1.scheduler) ∙ created.esp;
        idle_frame = frame;
        idle_stack =
            subst (λ (p : Paging). translate p t.next_stack_vaddr ≡ some (frame * 4096))
              (sym paging) seen;
        idle_words =
            subst (λ (e : ℕ). Prepared thread_trampoline e t1.space)
              (sym (scheduler_add-esp x x t1.scheduler)) words;
      },
    )
