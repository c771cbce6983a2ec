-- ===== src/Threads/Stack.antt =====
-- The loop of thread_create_sized over the pages of the stack.
use xenon_os.Base.{
  ℕ, zero, suc, ◌+◌, ◌*◌, ◌%◌, ◌≤◌, ◌≡◌, ◌⊎◌, inl, inr, refl, arith, ap₂, subst, sym,
}
use xenon_os.Pmm.{pmm_alloc, page_size}
use xenon_os.Pmm.Bounds
use xenon_os.Pmm.Frames.{used}
use xenon_os.Pmm.Alloc.{pmm_alloc-cases}
use xenon_os.Pmm.Count.{free_frames-pmm_alloc}
use xenon_os.Paging.{Paging, paging_map}
use xenon_os.Paging.Mmu.{IsValid}
use xenon_os.Paging.Map.{paging_map_lem}
use xenon_os.Paging.Allocator.{pmm_alloc-Grows, paging_map-Grows}
use xenon_os.Paging.Backed.{Backed, NoFrame, taking, taking-IsValid, none-Backed, more-Backed}
use xenon_os.Paging.Spending.{Spends, paging_map-Spends}
use xenon_os.Threads.{map_stack, stack_frame_vaddr}

-- One round of the loop.
abbrev pub round : ℕ → ℕ → Paging → Paging
round i vbase s = paging_map (stack_frame_vaddr vbase i) (pmm_alloc s.pmm).0 3 (taking s)

round-Grows :
    (i vbase : ℕ) (s : Paging)
    → Bounds.IsValid s.pmm
    → Bounds.IsValid (round i vbase s).pmm
      × ((f : ℕ) → used s.pmm f ≡ 1 → used (round i vbase s).pmm f ≡ 1)
round-Grows i vbase s v =
    let (valid, kept) = pmm_alloc-Grows s.pmm v in
    let (valid', kept') =
      paging_map-Grows (stack_frame_vaddr vbase i) (pmm_alloc s.pmm).0 3 (taking s) valid in
    (valid', λ f u. kept' f (kept f u))

map_stack-NoFrame :
    (left i vbase : ℕ) (s : Paging)
    → Bounds.IsValid s.pmm
    → NoFrame s.pmm
    → NoFrame (map_stack left i vbase s).pmm
unfolding map_stack
map_stack-NoFrame zero i vbase s v all_used = all_used
map_stack-NoFrame (suc left) i vbase s v all_used =
    let (valid, kept) = round-Grows i vbase s v in
    map_stack-NoFrame left (i + 1) vbase (round i vbase s) valid (λ f lt. kept f (all_used f lt))

-- Two frames at most for each page: its own, and one for a page table.
pub map_stack-Spends :
    (left i vbase : ℕ) (s : Paging)
    → Bounds.IsValid s.pmm
    → Spends (2 * left) s.pmm (map_stack left i vbase s).pmm
unfolding map_stack
map_stack-Spends zero i vbase s v = omega arith
map_stack-Spends (suc left) i vbase s v =
    let (valid, _) = pmm_alloc-Grows s.pmm v in
    omega (
      arith,
      free_frames-pmm_alloc s.pmm v,
      paging_map-Spends (stack_frame_vaddr vbase i) (pmm_alloc s.pmm).0 3 (taking s) valid,
      map_stack-Spends left (i + 1) vbase (round i vbase s) (round-Grows i vbase s v).0,
    )

-- The loop gives each page a new frame, or every frame is in use after it.
pub map_stack-Backed :
    (left i vbase : ℕ) (s : Paging)
    → vbase % 4096 ≡ 0
    → vbase + (i + left) * 4096 ≤ 0xFFC00000
    → IsValid s
    → Backed left i vbase s (map_stack left i vbase s) ⊎ NoFrame (map_stack left i vbase s).pmm
unfolding map_stack stack_frame_vaddr
map_stack-Backed zero i vbase s al low v = inl (none-Backed i vbase s v)
map_stack-Backed (suc left) i vbase s al low v =
    let (grown, kept) = round-Grows i vbase s v.allocator in
    let spent = λ (all_used : NoFrame s.pmm).
      map_stack-NoFrame left (i + 1) vbase (round i vbase s) grown
        (λ f lt. kept f (all_used f lt)) in
    elim (pmm_alloc-cases v.allocator) [
      | inl (none_free, all_used) ↦ inr (spent all_used)
      | inr (f, lt, address, fresh, taken) ↦
          let next : Paging = paging_map (vbase + i * 4096) (f * page_size) 3 (taking s) in
          let same : round i vbase s ≡ next =
            ap₂ (λ (a b : ℕ). paging_map a b 3 (taking s)) (omega arith) address in
          let valid : IsValid (taking s) = taking-IsValid i vbase f s v taken in
          subst
            (λ (r : Paging).
              Backed (suc left) i vbase s (map_stack left (i + 1) vbase r)
              ⊎ NoFrame (map_stack left (i + 1) vbase r).pmm)
            (sym same)
            (elim (paging_map_lem (vbase + i * 4096) (f * page_size) 3 (taking s) valid
              (omega arith) (omega arith) refl) [
                | inl (unchanged, _, all_used) ↦
                    let stuck : NoFrame next.pmm =
                      subst (λ (p : Paging). NoFrame p.pmm) (sym unchanged) all_used in
                    let next_valid : Bounds.IsValid next.pmm =
                      subst (λ (p : Paging). Bounds.IsValid p.pmm) (sym unchanged)
                        valid.allocator in
                    inr (map_stack-NoFrame left (i + 1) vbase next next_valid stuck)
                | inr (valid', pages) ↦
                    elim (map_stack-Backed left (i + 1) vbase next al (omega arith) valid') [
                      | inl b ↦ inl (more-Backed i vbase f s v taken lt fresh left al low pages _ b)
                      | inr none_left ↦ inr none_left
                    ]
              ])
    ]
