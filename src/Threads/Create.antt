-- ===== src/Threads/Create.antt =====
-- thread_create_sized: the structure and the stack of a new thread.
use xenon_os.Base.{
  List, length, ℕ, ◌+◌, ◌-◌, ◌*◌, ◌^◌, ◌<◌, ◌≤◌, ◌%◌, ◌≡◌, ◌≢◌, ◌⊎◌, refl, true, false, ◌==◌, some,
  arith, ap, ◌∙◌, inl, inr, subst, sym, add32, mul32, update-same, update-other,
}
use xenon_os.Memory.Words.{load32-store32, load32-store32_apart}
use xenon_os.Pmm.{page_size}
use xenon_os.Slab.{AddressSpace, load, store, slab_alloc}
use xenon_os.Scheduler.{Thread, ready}
use xenon_os.Base.Lists.{All}
use xenon_os.Slab.Layout.{View}
use xenon_os.Slab.Invariant.{IsCache}
use xenon_os.Slab.Search.{IsFull}
use xenon_os.Slab.Grow.{IsReserved}
use xenon_os.Slab.Alloc.{slab_alloc-result}
use xenon_os.Slab.Tables.{slab_alloc-Kept}
use xenon_os.Paging.{Paging}
use xenon_os.Paging.Mmu.{IsValid}
use xenon_os.Paging.Backed.{Backed, NoFrame}
use xenon_os.Threads.Stack.{map_stack-Backed}
use xenon_os.Threads.{
  ThreadPool, push_word, prepare_stack, set_up, map_stack, thread_create_sized, ready_pool,
  thread_size,
}

-- The stack that the first context_switch to a thread finds at its saved stack pointer: four
-- registers, and the trampoline as the return address.
pub record Prepared (thread_trampoline esp : ℕ) (s : AddressSpace) : Type 0 where
  pub ebx : load esp s ≡ 0
  pub esi : load (esp + 4) s ≡ 0
  pub edi : load (esp + 8) s ≡ 0
  pub ebp : load (esp + 12) s ≡ 0
  pub return_address : load (esp + 16) s ≡ thread_trampoline

push_word-eq :
    (word top low : ℕ) (s : AddressSpace)
    → low + 4 ≡ top
    → top < 2 ^ 32
    → push_word word (top, s) ≡ (low, store low word s)
unfolding push_word
push_word-eq word top low s e small = ap (λ (t : ℕ). (t, store t word s)) (omega (arith, e))

abbrev prepared : ℕ → ℕ → AddressSpace → AddressSpace
prepared thread_trampoline esp s = store esp 0 (
    store (esp + 4) 0
      (store (esp + 8) 0 (store (esp + 12) 0 (store (esp + 16) thread_trampoline s))))

prepare_stack-eq :
    (thread_trampoline esp top : ℕ) (s : AddressSpace)
    → esp + 20 ≡ top
    → top < 2 ^ 32
    → prepare_stack thread_trampoline (top, s) ≡ (esp, prepared thread_trampoline esp s)
unfolding prepare_stack
prepare_stack-eq thread_trampoline esp top s e small =
    ap (λ r. push_word 0 (push_word 0 (push_word 0 (push_word 0 r))))
      (push_word-eq thread_trampoline top (esp + 16) s (omega (arith, e)) small)
    ∙ ap (λ r. push_word 0 (push_word 0 (push_word 0 r)))
        (push_word-eq 0 (esp + 16) (esp + 12) _ (omega arith) (omega (arith, e)))
    ∙ ap (λ r. push_word 0 (push_word 0 r))
        (push_word-eq 0 (esp + 12) (esp + 8) _ (omega arith) (omega (arith, e)))
    ∙ ap (λ r. push_word 0 r)
        (push_word-eq 0 (esp + 8) (esp + 4) _ (omega arith) (omega (arith, e)))
    ∙ push_word-eq 0 (esp + 4) esp _ (omega arith) (omega (arith, e))

prepared-Prepared :
    (thread_trampoline esp : ℕ) (s : AddressSpace)
    → thread_trampoline < 2 ^ 32
    → Prepared thread_trampoline esp (prepared thread_trampoline esp s)
prepared-Prepared thread_trampoline esp s code = record {
  ebx = load32-store32 _ esp 0 (omega arith);
  esi =
      load32-store32_apart _ _ _ (esp + 4) (omega arith)
      ∙ load32-store32 _ (esp + 4) 0 (omega arith);
  edi =
      load32-store32_apart _ _ _ (esp + 8) (omega arith)
      ∙ load32-store32_apart _ _ _ (esp + 8) (omega arith)
      ∙ load32-store32 _ (esp + 8) 0 (omega arith);
  ebp =
      load32-store32_apart _ _ _ (esp + 12) (omega arith)
      ∙ load32-store32_apart _ _ _ (esp + 12) (omega arith)
      ∙ load32-store32_apart _ _ _ (esp + 12) (omega arith)
      ∙ load32-store32 _ (esp + 12) 0 (omega arith);
  return_address =
      load32-store32_apart _ _ _ (esp + 16) (omega arith)
      ∙ load32-store32_apart _ _ _ (esp + 16) (omega arith)
      ∙ load32-store32_apart _ _ _ (esp + 16) (omega arith)
      ∙ load32-store32_apart _ _ _ (esp + 16) (omega arith)
      ∙ load32-store32 _ (esp + 16) thread_trampoline code;
}

-- The fields of a thread that is marked ready to run `entry`, on a stack whose pages start where the last
-- stack and its guard page ended; every other thread is what it was.
pub record Created (entry stack_pages thread : ℕ) (t t' : ThreadPool) : Type 0 where
  pub esp : (t'.scheduler.threads thread).esp + 20 ≡ t.next_stack_vaddr + stack_pages * 4096
  pub mem : (t'.scheduler.threads thread).mem ≡ t.next_stack_vaddr
  pub pages : (t'.scheduler.threads thread).stack_pages ≡ stack_pages
  pub next_stack : t'.next_stack_vaddr ≡ t.next_stack_vaddr + stack_pages * 4096 + 4096
  pub id : (t'.scheduler.threads thread).id ≡ t.next_thread_id
  pub next_id : t'.next_thread_id ≡ add32 t.next_thread_id 1
  pub state : (t'.scheduler.threads thread).state ≡ ready
  pub entry_point : (t'.scheduler.threads thread).entry ≡ entry
  pub current : t'.scheduler.current ≡ t.scheduler.current
  pub others : (p : ℕ) → p ≢ thread → t'.scheduler.threads p ≡ t.scheduler.threads p

pub set_up_lem :
    (thread_trampoline entry stack_pages thread : ℕ) (t : ThreadPool)
    → 0 < stack_pages
    → t.next_stack_vaddr + stack_pages * 4096 + 4096 < 2 ^ 32
    → thread_trampoline < 2 ^ 32
    → Created entry stack_pages thread t (set_up thread_trampoline entry stack_pages thread t)
      × Prepared thread_trampoline
          ((set_up thread_trampoline entry stack_pages thread t).scheduler.threads thread).esp
          (set_up thread_trampoline entry stack_pages thread t).space
      × ((set_up thread_trampoline entry stack_pages thread t).space.paging
          ≡ map_stack stack_pages 0 t.next_stack_vaddr t.space.paging)
unfolding set_up
set_up_lem thread_trampoline entry stack_pages thread t some_pages room code =
    let vbase : ℕ = t.next_stack_vaddr in
    let top : ℕ = add32 vbase (mul32 stack_pages page_size) in
    let no_wrap : top ≡ vbase + stack_pages * 4096 = omega arith in
    let esp : ℕ = vbase + stack_pages * 4096 - 20 in
    let mapped : AddressSpace = record t.space {
      paging = map_stack stack_pages 0 vbase t.space.paging;
    } in
    let built = prepare_stack-eq thread_trampoline esp top mapped (omega arith) (omega arith) in
    let here = update-same t.scheduler.threads thread (record (t.scheduler.threads thread) {
      mem = vbase;
      stack_pages = stack_pages;
      esp = (prepare_stack thread_trampoline (top, mapped)).0;
      id = t.next_thread_id;
      state = ready;
      next = 0;
      entry = entry;
    }) in
    let saved : ((set_up thread_trampoline entry stack_pages thread t).scheduler.threads thread).esp
        ≡ esp =
      ap (λ (d : Thread). d.esp) here ∙ ap (λ r. r.0) built in
    (
      record {
        esp = ap (λ (e : ℕ). e + 20) saved ∙ omega arith;
        mem = ap (λ (d : Thread). d.mem) here;
        pages = ap (λ (d : Thread). d.stack_pages) here;
        next_stack = omega arith;
        id = ap (λ (d : Thread). d.id) here;
        next_id = refl;
        state = ap (λ (d : Thread). d.state) here;
        entry_point = ap (λ (d : Thread). d.entry) here;
        current = refl;
        others = λ p ne. update-other t.scheduler.threads thread p _ ne;
      },
      subst
          (λ (e : ℕ).
            Prepared thread_trampoline e (prepare_stack thread_trampoline (top, mapped)).1)
          (sym saved)
          (subst (Prepared thread_trampoline esp) (sym (ap (λ r. r.1) built))
            (prepared-Prepared thread_trampoline esp mapped code)),
      ap (λ (r : ℕ × AddressSpace). r.1.paging) built,
    )

-- What is created does not depend on the memory before.
Created-space :
    (entry stack_pages thread : ℕ) (t t' : ThreadPool) (s : AddressSpace)
    → Created entry stack_pages thread (record t { space = s }) t'
    → Created entry stack_pages thread t t'
Created-space entry stack_pages thread t t' s c = record {
  esp = c.esp;
  mem = c.mem;
  pages = c.pages;
  next_stack = c.next_stack;
  id = c.id;
  next_id = c.next_id;
  state = c.state;
  entry_point = c.entry_point;
  current = c.current;
  others = c.others;
}

-- The stack of a new thread: its pages have new frames, and what the first switch to it finds is written.
pub record Stacked (thread_trampoline stack_pages vbase esp : ℕ) (s s' : AddressSpace)
    : Type 0 where
  pub pages : Backed stack_pages 0 vbase s.paging s'.paging
  pub words : Prepared thread_trampoline esp s'

-- thread_create_sized for at least one stack page, with a pool of threads that is set up, valid page
-- tables, a next_stack_vaddr on a page boundary with room for the stack below the window of the
-- tables, and fuel above the number of the pool's slabs, ends. It returns NULL and changes nothing if the pool has no
-- room and every frame is in use; else it returns the object that slab_alloc took, with the fields of
-- a thread that is ready. Each page of its stack is then mapped to a new frame of its own, unless
-- no frame was left for its page table, and its first words are written; or every frame is in use, and
-- pages of the stack may be missing.
pub thread_create_sized_lem :
    (fuel pool thread_trampoline entry stack_pages : ℕ) (t : ThreadPool) (vs : List View)
    → 0 < stack_pages
    → t.next_stack_vaddr % 4096 ≡ 0
    → t.next_stack_vaddr + stack_pages * 4096 + 4096 ≤ 0xFFC00000
    → thread_trampoline < 2 ^ 32
    → t.thread_pool_ready ≡ true
    → length vs < fuel
    → IsValid t.space.paging
    → IsReserved pool t.space
    → IsCache pool thread_size t.space vs
    → ((thread_create_sized fuel pool thread_trampoline entry stack_pages t ≡ some (0, t))
        × All IsFull vs
        × NoFrame t.space.paging.pmm)
      ⊎ ((thread : ℕ) × (s : AddressSpace) × (t' : ThreadPool) × (slab_alloc fuel pool t.space
            ≡ some (thread, s))
          × (thread_create_sized fuel pool thread_trampoline entry stack_pages t
              ≡ some (thread, t'))
          × (thread ≢ 0)
          × Created entry stack_pages thread t t'
          × (Stacked thread_trampoline stack_pages t.next_stack_vaddr
                (t'.scheduler.threads thread).esp
                s
                t'.space
              ⊎ NoFrame t'.space.paging.pmm))
unfolding thread_create_sized ready_pool
thread_create_sized_lem fuel pool thread_trampoline entry stack_pages t vs some_pages al room code
      set enough tables reserved cached =
    elim (slab_alloc-result fuel pool thread_size t.space vs (omega arith) (omega arith) enough
      reserved cached) [
        | inl (full, all_used, failed) ↦ inl (rw set (rw failed refl), full, all_used)
        | inr (x, s', done, real) ↦
            let allocated : ThreadPool = record t { space = s' } in
            let not_null : (x == 0) ≡ false = ground (arith, real) in
            let (created, words, paging) =
              set_up_lem thread_trampoline entry stack_pages x allocated some_pages (omega arith)
                code in
            let valid = (slab_alloc-Kept fuel pool x t.space s' tables done).0 in
            inr (
              x,
              s',
              set_up thread_trampoline entry stack_pages x allocated,
              done,
              rw set (rw done (rw not_null refl)),
              real,
              Created-space entry stack_pages x t _ s' created,
              elim (map_stack-Backed stack_pages 0 t.next_stack_vaddr s'.paging al (omega arith)
                  valid) [
                    | inl b ↦ inl (record {
                      pages =
                          subst (Backed stack_pages 0 t.next_stack_vaddr s'.paging) (sym paging) b;
                      words = words;
                    })
                    | inr spent ↦ inr (subst (λ (p : Paging). NoFrame p.pmm) (sym paging) spent)
                  ],
            )
      ]
