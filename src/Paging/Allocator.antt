-- ===== src/Paging/Allocator.antt =====
-- What paging_map and paging_unmap ask of the frame allocator: one frame at most, for a table.
use xenon_os.Base.{
  ℕ, zero, suc, ◌+◌, ◌≡◌, refl, ◌⊎◌, inl, inr, ◌∙◌, ap, Bool-cases, arith, ◌==◌, leb, subst, sym,
}
use xenon_os.Pmm.{Pmm, pmm_alloc, no_frame}
use xenon_os.Pmm.Bounds
use xenon_os.Pmm.Bounds.{pmm_alloc-IsValid}
use xenon_os.Pmm.Frames.{used}
use xenon_os.Pmm.Alloc.{pmm_alloc-cases}
use xenon_os.Paging.{
  Paging, recursive_index, clear_table, store_entry, is_present, create_table, ensure_table,
  paging_map, paging_unmap, directory_index,
}

clear_table-pmm : (left i index : ℕ) (s : Paging) → (clear_table left i index s).pmm ≡ s.pmm
unfolding clear_table store_entry
clear_table-pmm zero i index s = refl
clear_table-pmm (suc left) i index s = clear_table-pmm left (i + 1) index (store_entry index i 0 s)

create_table-pmm : (index : ℕ) (s : Paging) → (create_table index s).1.pmm ≡ (pmm_alloc s.pmm).1
unfolding create_table
create_table-pmm index s = elim (Bool-cases ((pmm_alloc s.pmm).0 == no_frame)) [
  | inl failed ↦ rw (failed, create_table) refl
  | inr taken ↦ rw (taken, create_table) (clear_table-pmm _ 0 index _)
]

ensure_table-pmm :
    (index : ℕ) (s : Paging)
    → ((ensure_table index s).1.pmm ≡ s.pmm) ⊎ ((ensure_table index s).1.pmm ≡ (pmm_alloc s.pmm).1)
unfolding ensure_table
ensure_table-pmm index s = elim (Bool-cases (is_present index s)) [
  | inl there ↦ inl (rw (there, ensure_table) refl)
  | inr missing ↦ inr (rw (missing, ensure_table) (create_table-pmm index s))
]

pub paging_map-pmm :
    (virtual physical flags : ℕ) (s : Paging)
    → ((paging_map virtual physical flags s).pmm ≡ s.pmm)
      ⊎ ((paging_map virtual physical flags s).pmm ≡ (pmm_alloc s.pmm).1)
unfolding paging_map store_entry
paging_map-pmm virtual physical flags s =
    elim (Bool-cases (leb recursive_index (directory_index virtual))) [
      | inl high ↦ inl (rw (high, paging_map) refl)
      | inr low ↦ elim (Bool-cases ((ensure_table (directory_index virtual) s).0)) [
        | inl ok ↦ rw (low, ok, paging_map) (ensure_table-pmm (directory_index virtual) s)
        | inr failed ↦ rw (low, failed, paging_map) (ensure_table-pmm (directory_index virtual) s)
      ]
    ]

-- A frame in use stays in use, and the allocator's state stays valid.
abbrev pub Grows : Pmm → Pmm → Type 0
Grows p p' = Bounds.IsValid p' × ((f : ℕ) → used p f ≡ 1 → used p' f ≡ 1)

pub pmm_alloc-Grows : (p : Pmm) → Bounds.IsValid p → Grows p (pmm_alloc p).1
pmm_alloc-Grows p v = (
  pmm_alloc-IsValid v,
  λ f u. elim (pmm_alloc-cases v) [
    | inl (none_free, _) ↦ ap (λ (r : ℕ × Pmm). used r.1 f) none_free ∙ u
    | inr (g, _, _, _, taken) ↦ taken f ∙ ground (arith, u)
  ],
)

pub paging_map-Grows :
    (virtual physical flags : ℕ) (s : Paging)
    → Bounds.IsValid s.pmm
    → Grows s.pmm (paging_map virtual physical flags s).pmm
paging_map-Grows virtual physical flags s v = elim (paging_map-pmm virtual physical flags s) [
  | inl same ↦ subst (Grows s.pmm) (sym same) (v, λ f u. u)
  | inr taken ↦ subst (Grows s.pmm) (sym taken) (pmm_alloc-Grows s.pmm v)
]

pub paging_unmap-pmm : (virtual : ℕ) (s : Paging) → (paging_unmap virtual s).pmm ≡ s.pmm
unfolding paging_unmap store_entry
paging_unmap-pmm virtual s = ground arith
