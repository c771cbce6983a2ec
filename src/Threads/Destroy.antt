-- ===== src/Threads/Destroy.antt =====
-- thread_destroy: the stack and the structure of a thread that has ended.
use xenon_os.Base.{
  ℕ, zero, suc, ◌+◌, ◌*◌, ◌/◌, ◌%◌, ◌<◌, ◌≤◌, ◌≡◌, ◌≢◌, refl, arith, ◌∙◌, subst, sym, List, [], ◌∷◌,
  ◌++◌, length,
}
use xenon_os.Base.Lists.{All}
use xenon_os.Pmm.Frames.{used}
use xenon_os.Paging.{Paging}
use xenon_os.Slab.Layout.{View}
use xenon_os.Slab.Invariant.{IsCache, IsLinked-paging}
use xenon_os.Slab.Free.{Freed, slab_free_lem}
use xenon_os.Heap.{release_pages}
use xenon_os.Heap.Release.{Mapped, Unmapped, release_pages_lem}
use xenon_os.Threads.{ThreadPool, stack_frame_vaddr, release_stack, thread_destroy, thread_size}
use mathlib.Core.Option

-- The loop is that of kfree_large.
release_stack-release_pages :
    (left i vbase : ℕ) (s : Paging) → release_stack left i vbase s ≡ release_pages left i vbase s
unfolding release_stack release_pages stack_frame_vaddr
release_stack-release_pages zero i vbase s = refl
release_stack-release_pages (suc left) i vbase s = release_stack-release_pages left (i + 1) vbase _

owned-Unmapped :
    (g : ℕ → ℕ) (pages vbase : ℕ) (s s' : Paging) (vs : List View)
    → Unmapped g pages 0 vbase s s'
    → All (λ v. (k : ℕ) → k < pages → v.frame / 4096 ≢ g k) vs
    → All (λ v. used s.pmm (v.frame / 4096) ≡ 1) vs
    → All (λ v. used s'.pmm (v.frame / 4096) ≡ 1) vs
owned-Unmapped g pages vbase s s' [] u apart owned = tt
owned-Unmapped g pages vbase s s' (v ∷ vs) u apart owned = (
  u.others (v.frame / 4096) (λ k p q. apart.0 k (omega arith)) ∙ owned.0,
  owned-Unmapped g pages vbase s s' vs u apart.1 owned.1,
)

-- thread_destroy on a thread of the pool whose stack pages are mapped to frames of their own, with
-- fuel above the number of slabs before that of the thread, ends. It frees the frames of the stack and no other,
-- takes the translations of its pages away and no other, and then gives the structure back as
-- slab_free does.
pub thread_destroy_lem :
    (g : ℕ → ℕ) (fuel pool thread : ℕ) (t : ThreadPool) (before : List View) (v : View)
    (after : List View) (l l' : List ℕ)
    → (t.scheduler.threads thread).mem % 4096 ≡ 0
    → (t.scheduler.threads thread).mem + (t.scheduler.threads thread).stack_pages * 4096
      ≤ 0xFFC00000
    → Mapped g
        (t.scheduler.threads thread).stack_pages
        0
        (t.scheduler.threads thread).mem
        t.space.paging
    → All
        (λ u. (k : ℕ) → k < (t.scheduler.threads thread).stack_pages → u.frame / 4096 ≢ g k)
        (before ++ v ∷ after)
    → v.live ≡ l ++ thread ∷ l'
    → length before < fuel
    → IsCache pool thread_size t.space (before ++ v ∷ after)
    → (paging : Paging) × Unmapped g
        (t.scheduler.threads thread).stack_pages
        0
        (t.scheduler.threads thread).mem
        t.space.paging
        paging
      × Freed pool thread_size
          (record t.space { paging = paging })
          before
          v
          after
          (l ++ l')
          thread
          (Option.map (λ t'. t'.space) (thread_destroy fuel pool thread t))
unfolding thread_destroy Freed
thread_destroy_lem g fuel pool thread t before v after l l' al low mapped apart held enough cached =
    let pages : ℕ = (t.scheduler.threads thread).stack_pages in
    let vbase : ℕ = (t.scheduler.threads thread).mem in
    let paging : Paging = release_stack pages 0 vbase t.space.paging in
    let unmapped : Unmapped g pages 0 vbase t.space.paging paging =
      subst (Unmapped g pages 0 vbase t.space.paging)
        (sym (release_stack-release_pages pages 0 vbase t.space.paging))
        (release_pages_lem g pages 0 vbase t.space.paging al (omega arith) mapped) in
    let linked =
      IsLinked-paging pool thread_size t.space paging (before ++ v ∷ after) unmapped.valid.allocator
        (owned-Unmapped g pages vbase t.space.paging paging (before ++ v ∷ after) unmapped apart
          cached.0.owned)
        cached.0 in
    let (s', done, rest) =
      slab_free_lem fuel pool thread_size (record t.space { paging = paging }) before v after l l'
        thread (omega arith) held enough (linked, cached.1) in
    (paging, unmapped, (s', rw done refl, rest))
