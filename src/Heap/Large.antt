-- ===== src/Heap/Large.antt =====
-- kmalloc_large: where its blocks lie, and how it fails.
use xenon_os.Base.{
  ℕ, zero, suc, ◌+◌, ◌*◌, ◌<◌, ◌≤◌, ◌≡◌, ◌⊎◌, refl, false, ◌==◌, ltb, arith, ap, ◌∙◌, Bool-cases,
  inl, inr, subst, sym, add32, mul32, ap₂, true, Bool, ◌%◌,
}
use xenon_os.Memory.Words.{load32-store32, load32-store32_apart}
use xenon_os.Pmm.{pmm_alloc, no_frame, page_size}
use xenon_os.Pmm.Bounds
use xenon_os.Pmm.Alloc.{pmm_alloc-cases}
use xenon_os.Paging.{Paging, paging_map}
use xenon_os.Paging.Allocator.{pmm_alloc-Grows, paging_map-Grows}
use xenon_os.Paging.Mmu.{IsValid}
use xenon_os.Paging.Map.{paging_map_lem}
use xenon_os.Paging.Backed.{
  Backed, NoFrame, taking, taking-IsValid, none-Backed, more-Backed, last-Backed,
}
use xenon_os.Slab.{AddressSpace, load, store}
use xenon_os.Heap.{
  Heap, map_pages, pages_for, kmalloc_large, large_alloc_magic, large_alloc_region_end,
  large_header_size,
}

-- The loop ends early only when every frame is in use.
map_pages-failed :
    (left i vbase : ℕ) (s : Paging)
    → Bounds.IsValid s.pmm
    → (map_pages left i vbase s).0 ≡ false
    → NoFrame (map_pages left i vbase s).1.pmm
unfolding map_pages
map_pages-failed zero i vbase s v e = absurd (ground (arith, e))
map_pages-failed (suc left) i vbase s v e = elim (pmm_alloc-cases v) [
  | inl (none_free, all_used) ↦ rw (none_free, map_pages) all_used
  | inr (f, lt, address, _, _) ↦
      let ok : ((pmm_alloc s.pmm).0 == no_frame) ≡ false = ground (arith, address) in
      let taken : Paging = record s { pmm = (pmm_alloc s.pmm).1 } in
      let page : ℕ = add32 vbase (mul32 i page_size) in
      let next : Paging = paging_map page (pmm_alloc s.pmm).0 3 taken in
      let valid =
        (paging_map-Grows page (pmm_alloc s.pmm).0 3 taken (pmm_alloc-Grows s.pmm v).0).0 in
      let same : map_pages (suc left) i vbase s ≡ map_pages left (i + 1) vbase next =
        rw (ok, map_pages) refl in
      subst (λ r. NoFrame r.1.pmm) (sym same)
        (map_pages-failed left (i + 1) vbase next valid (ap (λ r. r.0) (sym same) ∙ e))
]

no-frames-left :
    (left i vbase : ℕ) (s : Paging)
    → Bounds.IsValid s.pmm
    → NoFrame s.pmm
    → (map_pages (suc left) i vbase s).0 ≡ false
unfolding map_pages
no-frames-left left i vbase s v all_used = elim (pmm_alloc-cases v) [
  | inl (none_free, _) ↦ rw (none_free, map_pages) refl
  | inr (f, lt, _, free, _) ↦ absurd (omega (arith, free, all_used f lt))
]

ended :
    (left i vbase : ℕ) (s : Paging)
    → Bounds.IsValid s.pmm
    → NoFrame s.pmm
    → (map_pages left i vbase s).0 ≡ true
    → left ≡ 0
ended zero i vbase s v all_used e = refl
ended (suc left) i vbase s v all_used e =
    absurd (ground (arith, e, no-frames-left left i vbase s v all_used))

-- Otherwise every page has a frame.
map_pages-Backed :
    (left i vbase : ℕ) (s : Paging)
    → vbase % 4096 ≡ 0
    → vbase + (i + left) * 4096 ≤ 0xFFC00000
    → IsValid s
    → (map_pages left i vbase s).0 ≡ true
    → Backed left i vbase s (map_pages left i vbase s).1
unfolding map_pages
map_pages-Backed zero i vbase s al low v e = none-Backed i vbase s v
map_pages-Backed (suc left) i vbase s al low v e = elim (pmm_alloc-cases v.allocator) [
  | inl (none_free, all_used) ↦
      absurd (ground (arith, e, no-frames-left left i vbase s v.allocator all_used))
  | inr (f, lt, address, fresh, taken) ↦
      let ok : ((pmm_alloc s.pmm).0 == no_frame) ≡ false = ground (arith, address) in
      let page : add32 vbase (mul32 i page_size) ≡ vbase + i * 4096 = omega arith in
      let next : Paging = paging_map (vbase + i * 4096) (f * page_size) 3 (taking s) in
      let same : map_pages (suc left) i vbase s ≡ map_pages left (i + 1) vbase next =
        rw (ok, map_pages)
          (ap₂ (λ (a b : ℕ). map_pages left (i + 1) vbase (paging_map a b 3 (taking s))) page
            address) in
      let valid : IsValid (taking s) = taking-IsValid i vbase f s v taken in
      let done : (map_pages left (i + 1) vbase next).0 ≡ true =
        ap (λ (r : Bool × Paging). r.0) (sym same) ∙ e in
      subst (λ (r : Bool × Paging). Backed (suc left) i vbase s r.1) (sym same)
        (elim (paging_map_lem (vbase + i * 4096) (f * page_size) 3 (taking s) valid (omega arith)
          (omega arith) refl) [
            | inl (kept, missing, all_used) ↦
                let here : Backed 1 i vbase s next =
                  last-Backed i vbase f s v taken lt fresh kept (all_used, missing) in
                let stuck : NoFrame next.pmm =
                  subst (λ (p : Paging). NoFrame p.pmm) (sym kept) all_used in
                let last : left ≡ 0 =
                  ended left (i + 1) vbase next here.valid.allocator stuck done in
                subst (λ (n : ℕ). Backed (suc n) i vbase s (map_pages n (i + 1) vbase next).1)
                  (sym last) here
            | inr (valid', pages) ↦
                more-Backed i vbase f s v taken lt fresh left al low pages _
                  (map_pages-Backed left (i + 1) vbase next al (omega arith) valid' done)
          ])
]

-- A block in the region, between the old and the new next_large_vaddr.
pub record Block (size : ℕ) (h h' : Heap) : Type 0 where
  pub next : h'.next_large_vaddr ≡ h.next_large_vaddr + pages_for size * 4096
  pub fits : h.next_large_vaddr + large_header_size + size ≤ h'.next_large_vaddr
  pub inside : h'.next_large_vaddr ≤ large_alloc_region_end

-- The three results of kmalloc_large: the region has no room for the block, and nothing changes; or
-- the block is there, and either its pages have new frames and its header is written, or every
-- frame is in use.
unfoldable pub Outcome : ℕ → Heap → ℕ × Heap → Type 0
Outcome size h (address, h') =
    ((large_alloc_region_end < h.next_large_vaddr + pages_for size * 4096)
      × (address ≡ 0)
      × (h' ≡ h))
    ⊎ (Block size h h'
        × (((address ≡ h.next_large_vaddr + large_header_size)
              × Backed (pages_for size) 0 h.next_large_vaddr h.space.paging h'.space.paging
              × (load h.next_large_vaddr h'.space ≡ large_alloc_magic)
              × (load (h.next_large_vaddr + 4) h'.space ≡ pages_for size))
            ⊎ ((address ≡ 0) × NoFrame h'.space.paging.pmm)))

-- For a request of at most 0x30000000 - 4104 bytes, on valid page tables, and with next_large_vaddr on
-- a page boundary and not beyond the region, no sum wraps, and kmalloc_large has one of three
-- results. If the region has no room for the block, it returns NULL
-- and changes nothing. Otherwise the block, a whole number of pages with room for header and request,
-- starts where the last one ended and ends inside the region. Then either it returns the address
-- behind the header, which holds the magic number and the page count: each page of the block has got a
-- frame of its own that was free, and is mapped to it, unless its page table was missing and no
-- frame was left for one. Or every frame is in use, and it returns NULL.
pub kmalloc_large_lem :
    (size : ℕ) (h : Heap)
    → size + 4104 ≤ 0x30000000
    → h.next_large_vaddr ≤ large_alloc_region_end
    → h.next_large_vaddr % 4096 ≡ 0
    → IsValid h.space.paging
    → Outcome size h (kmalloc_large size h)
unfolding kmalloc_large pages_for Outcome
kmalloc_large_lem size h small low al v =
    let vbase : ℕ = h.next_large_vaddr in
    let pages : ℕ = pages_for size in
    let next : ℕ = add32 vbase (mul32 pages page_size) in
    let no_wrap : next ≡ vbase + pages * 4096 = omega arith in
    elim (Bool-cases (ltb large_alloc_region_end next)) [
      | inl full ↦ inl (
        ground (arith, no_wrap, full),
        rw (full, kmalloc_large) refl,
        rw (full, kmalloc_large) refl,
      )
      | inr room ↦ elim (Bool-cases (map_pages pages 0 vbase h.space.paging).0) [
        | inl ok ↦
            let below : next ≤ large_alloc_region_end = ground (arith, room) in
            let mapped : AddressSpace = record h.space {
              paging = (map_pages pages 0 vbase h.space.paging).1;
            } in
            let done : kmalloc_large size h ≡ (
              add32 vbase large_header_size,
              record {
                space = store (vbase + 4) pages (store vbase large_alloc_magic mapped);
                next_large_vaddr = next;
              },
            ) =
              rw (room, kmalloc_large) (rw (ok, kmalloc_large) refl) in
            subst (Outcome size h) (sym done) (
              inr (
                record { next = no_wrap; fits = omega arith; inside = ground (arith, room) },
                inl (
                  omega arith,
                  map_pages-Backed pages 0 vbase h.space.paging al (omega (arith, no_wrap, below)) v
                      ok,
                  load32-store32_apart _ _ _ vbase (omega arith)
                      ∙ load32-store32 _ vbase _ (omega arith),
                  load32-store32 _ (vbase + 4) pages (omega arith),
                ),
              ))
        | inr failed ↦
            let spent : AddressSpace = record h.space {
              paging = (map_pages pages 0 vbase h.space.paging).1;
            } in
            let done : kmalloc_large size h
                ≡ (0, record { space = spent; next_large_vaddr = next }) =
              rw (room, kmalloc_large) (rw (failed, kmalloc_large) refl) in
            subst (Outcome size h) (sym done) (
              inr (
                record { next = no_wrap; fits = omega arith; inside = ground (arith, room) },
                inr (refl, map_pages-failed pages 0 vbase h.space.paging v.allocator failed),
              ))
      ]
    ]
