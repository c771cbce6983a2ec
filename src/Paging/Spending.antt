-- ===== src/Paging/Spending.antt =====
-- What pmm_alloc and paging_map leave of the free frames and of the page tables.
use xenon_os.Base.{
  ℕ, ◌+◌, ◌/◌, ◌^◌, ◌<◌, ◌≤◌, ◌≡◌, inl, inr, true, leb, arith, ap, subst, sym, dec_lt, refl,
}
use xenon_os.Pmm.{Pmm}
use xenon_os.Pmm.Bounds
use xenon_os.Pmm.Count.{free_frames, free_frames-pmm_alloc}
use xenon_os.Pmm.Alloc.{pmm_alloc-cases}
use xenon_os.Paging.{Paging, paging_map, directory_index, recursive_index}
use xenon_os.Paging.Mmu.{IsValid}
use xenon_os.Paging.Map.{paging_map_lem}
use xenon_os.Paging.Allocator.{paging_map-pmm}
use xenon_os.Paging.Backed.{taking, taking-IsValid}

-- At most `n` of the free frames are gone.
abbrev pub Spends : ℕ → Pmm → Pmm → Type 0
Spends n p p' = free_frames p ≤ n + free_frames p'

pub paging_map-Spends :
    (virtual physical flags : ℕ) (s : Paging)
    → Bounds.IsValid s.pmm
    → Spends 1 s.pmm (paging_map virtual physical flags s).pmm
paging_map-Spends virtual physical flags s v = elim (paging_map-pmm virtual physical flags s) [
  | inl same ↦ omega (arith, ap free_frames same)
  | inr taken ↦ omega (arith, ap free_frames taken, free_frames-pmm_alloc s.pmm v)
]

pub pmm_alloc-tables : (s : Paging) → IsValid s → IsValid (taking s)
pmm_alloc-tables s v = elim (pmm_alloc-cases v.allocator) [
  | inl (none_free, _) ↦
      subst (λ (p : Pmm). IsValid (record s { pmm = p }))
        (sym (ap (λ (r : ℕ × Pmm). r.1) none_free))
        (record { allocator = v.allocator; tables_used = v.tables_used; apart = v.apart })
  | inr (f, _, _, _, taken) ↦ taking-IsValid 0 0 f s v taken
]

pub paging_map-tables :
    (address physical : ℕ) (s : Paging)
    → physical < 2 ^ 32
    → IsValid s
    → IsValid (paging_map address physical 3 s)
unfolding paging_map directory_index
paging_map-tables address physical s small v = elim (dec_lt (address / 2 ^ 22) 1023) [
  | no high ↦
      let window : leb recursive_index (address / 2 ^ 22) ≡ true = ground (arith, high) in
      rw (window, paging_map) v
  | yes low ↦ elim (paging_map_lem address physical 3 s v low small refl) [
    | inl (same, _, _) ↦ subst IsValid (sym same) v
    | inr (valid, _) ↦ valid
  ]
]
