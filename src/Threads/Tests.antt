-- ===== src/Threads/Tests.antt =====
-- Concrete pools of threads, and the theorems on them.
use xenon_os.Base.{
  ℕ, ◌+◌, ◌-◌, ◌*◌, ◌/◌, ◌%◌, ◌^◌, ◌≡◌, ◌<◌, ◌≢◌, ◌⊎◌, refl, ◌==◌, if◌then◌else◌, [], ◌∷◌, arith,
  some, subst, sym, Bool, true, ap,
}
use xenon_os.Base.Bits.{bit, bit-all_ones}
use xenon_os.Base.Lists.{All}
use xenon_os.Pmm.{Pmm}
use xenon_os.Pmm.Bounds
use xenon_os.Pmm.Frames.{used}
use xenon_os.Paging.{Paging}
use xenon_os.Paging.Backed.{NoFrame}
use xenon_os.Paging.Mmu.{IsValid, translate, entry_of}
use xenon_os.Slab.{AddressSpace, slab_alloc, slab_cache_init}
use xenon_os.Slab.Layout.{View}
use xenon_os.Slab.Invariant.{IsCache, IsLinked-paging}
use xenon_os.Slab.Search.{IsFull}
use xenon_os.Slab.Grow.{IsReserved}
use xenon_os.Slab.Init.{slab_cache_init_lem}
use xenon_os.Slab.Alloc.{First, slab_alloc-first}
use xenon_os.Slab.Free.{Freed}
use xenon_os.Slab.Tests.{two_words, two_words-IsValid, machine, machine-IsValid}
use xenon_os.Heap.Release.{Mapped, Unmapped}
use xenon_os.Scheduler.{Thread, terminated}
use xenon_os.Threads.{ThreadPool, thread_create_sized, thread_destroy}
use xenon_os.Threads.Create.{Created, Stacked, thread_create_sized_lem}
use xenon_os.Threads.Destroy.{thread_destroy_lem}
use mathlib.Core.Option

abbrev descriptor : Thread
descriptor = record {
  id = 1;
  esp = 0;
  mem = 0xC0000000;
  state = terminated;
  next = 0;
  entry = 0;
  wake_at = 0;
  stack_pages = 1;
}

abbrev pool_with : AddressSpace → Bool → ThreadPool
pool_with s is_ready = record {
  space = s;
  scheduler = record { threads = λ p. descriptor; current = 0; destroyed = [] };
  thread_pool_ready = is_ready;
  next_stack_vaddr = 0xD0000000;
  next_thread_id = 1;
}

two_words-used : (f : ℕ) → f < 64 → used two_words f ≡ 1
two_words-used f lt =
    let word : (f / 32 / 2 == 0) ≡ true = ground arith in
    rw word (bit-all_ones 32 (f % 32) (omega arith))

-- The cache of the pool lies at 0x1000.
abbrev empty : AddressSpace
empty = slab_cache_init 0x1000 32 machine

empty-IsCache : IsCache 0x1000 32 empty []
empty-IsCache = slab_cache_init_lem 0x1000 32 machine (omega arith) two_words-IsValid

machine-IsReserved : IsReserved 0x1000 machine
machine-IsReserved = record {
  home = λ a low high. two_words-used (a / 4096) (omega arith);
  below = omega arith;
  null = two_words-used 0 (omega arith);
}

empty-IsReserved : IsReserved 0x1000 empty
empty-IsReserved =
    unfold slab_cache_init in
    record {
      home = machine-IsReserved.home;
      below = machine-IsReserved.below;
      null = machine-IsReserved.null;
    }

empty-IsValid : IsValid empty.paging
unfolding slab_cache_init
empty-IsValid = machine-IsValid

thread_create_sized_lem_example :
    ((thread_create_sized 1 0x1000 0x10000 0x11000 4 (pool_with empty true)
        ≡ some (0, pool_with empty true))
      × All IsFull []
      × NoFrame empty.paging.pmm)
    ⊎ ((thread : ℕ) × (s : AddressSpace) × (t' : ThreadPool) × (slab_alloc 1 0x1000 empty
          ≡ some (thread, s))
        × (thread_create_sized 1 0x1000 0x10000 0x11000 4 (pool_with empty true)
            ≡ some (thread, t'))
        × (thread ≢ 0)
        × Created 0x11000 4 thread (pool_with empty true) t'
        × (Stacked 0x10000 4 0xD0000000 (t'.scheduler.threads thread).esp s t'.space
            ⊎ NoFrame t'.space.paging.pmm))
thread_create_sized_lem_example =
    thread_create_sized_lem 1 0x1000 0x10000 0x11000 4 (pool_with empty true) [] (omega arith)
      (omega arith) (omega arith) (omega arith) refl (omega arith) empty-IsValid empty-IsReserved
      empty-IsCache

-- After the first slab_alloc, with every frame in use, and a stack page in the frame 1.
first : First 1 0x1000 32 empty
first =
    slab_alloc-first 1 0x1000 32 64 empty (omega arith) (omega arith) (omega arith) empty-IsReserved
      empty-IsCache (omega arith) (unfold slab_cache_init bit in refl)

abbrev full : Pmm
full = record { bitmap = λ i. 2 ^ 32 - 1; search_hint = 0 }

abbrev tables : Paging
tables = record {
  pmm = full;
  page_directory = λ i. if i == 768 then 0x5003 else 2;
  frames = λ f i. 0x1003;
  flushed = [];
}

full-IsValid : Bounds.IsValid full
full-IsValid = record { words = λ i. omega arith; hint = omega arith }

tables-IsValid : IsValid tables
tables-IsValid = record {
  allocator = full-IsValid;
  tables_used = λ i lt has. bit-all_ones 32 _ (omega arith);
  apart = λ i j lt lt' has has' same. ground (arith, has, has');
}

abbrev grown : AddressSpace
grown = record first.after { paging = tables }

abbrev holder : View
holder = record { frame = first.frame * 4096; free = first.free; live = first.object ∷ [] }

grown-IsCache : IsCache 0x1000 32 grown (holder ∷ [])
grown-IsCache = (
  IsLinked-paging 0x1000 32 first.after tables (holder ∷ []) full-IsValid
      (bit-all_ones 32 _ (omega arith), tt) first.cached.0,
  first.cached.1,
)

abbrev frame_1 : ℕ → ℕ
frame_1 k = 1

stack-Mapped : Mapped frame_1 1 0 0xC0000000 tables
stack-Mapped = record {
  valid = tables-IsValid;
  frames = λ k p q. omega arith;
  mapped = λ k p q.
      let only : k ≡ 0 = omega arith in
      subst (λ (n : ℕ). translate tables (0xC0000000 + n * 4096) ≡ some 4096) (sym only)
        (unfold translate entry_of in refl);
  tables = λ k j p q lt has. ground (arith, has);
}

holder-apart : (k : ℕ) → k < 1 → holder.frame / 4096 ≢ frame_1 k
holder-apart k lt e =
    let page : first.frame ≡ 1 = omega (arith, e) in
    let was_free : used two_words first.frame ≡ 0 = unfold slab_cache_init in first.fresh in
    omega (arith, was_free, ap (used two_words) page, two_words-used 1 (omega arith))

thread_destroy_lem_example :
    (paging : Paging) × Unmapped frame_1 1 0 0xC0000000 tables paging
    × Freed 0x1000 32
        (record grown { paging = paging })
        []
        holder
        []
        []
        first.object
        (Option.map (λ t'. t'.space) (thread_destroy 1 0x1000 first.object (pool_with grown true)))
thread_destroy_lem_example =
    thread_destroy_lem frame_1 1 0x1000 first.object (pool_with grown true) [] holder [] [] []
      (omega arith) (omega arith) stack-Mapped (holder-apart, tt) refl (omega arith) grown-IsCache
