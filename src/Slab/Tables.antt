-- ===== src/Slab/Tables.antt =====
-- What slab_alloc leaves of the page tables and of the free frames.
use xenon_os.Base.{
  if◌then◌else◌, ℕ, ◌^◌, ◌<◌, ◌≡◌, inl, inr, ◌==◌, arith, ap, subst, sym, some, Bool-cases,
  Option-cases, refl,
}
use mathlib.Core.Option.{some-injective}
use xenon_os.Pmm.{Pmm, pmm_alloc, no_frame}
use xenon_os.Pmm.Count.{free_frames-pmm_alloc}
use xenon_os.Pmm.Alloc.{pmm_alloc-cases}
use xenon_os.Paging.{Paging}
use xenon_os.Paging.Mmu.{IsValid}
use xenon_os.Paging.Backed.{taking}
use xenon_os.Paging.Spending.{Spends, paging_map-Spends, pmm_alloc-tables, paging_map-tables}
use xenon_os.Slab.{
  AddressSpace, load, slabs, slab_create, slab_take, grow, slab_alloc, find_slab, map_frame,
}
use xenon_os.Slab.Fill.{fill_slab-paging}

-- The tables stay valid, and at most two frames are gone: the slab and a page table.
abbrev pub Kept : Paging → Paging → Type 0
Kept s s' = IsValid s' × Spends 2 s.pmm s'.pmm

same-Kept : (s : Paging) → IsValid s → Kept s s
same-Kept s v = (v, omega arith)

slab_create-Kept :
    (cache : ℕ) (s : AddressSpace) → IsValid s.paging → Kept s.paging (slab_create cache s).1.paging
unfolding slab_create
slab_create-Kept cache s v =
    let taken : IsValid (taking s.paging) = pmm_alloc-tables s.paging v in
    let one = free_frames-pmm_alloc s.paging.pmm v.allocator in
    elim (Bool-cases ((pmm_alloc s.paging.pmm).0 == no_frame)) [
      | inl failed ↦ rw (failed, slab_create) (taken, omega (arith, one))
      | inr ok ↦ elim (pmm_alloc-cases v.allocator) [
        | inl (none_free, _) ↦ absurd (ground (arith, ok, ap (λ (r : ℕ × Pmm). r.0) none_free))
        | inr (f, lt, address, _, _) ↦
            let frame : ℕ = (pmm_alloc s.paging.pmm).0 in
            let small : frame < 2 ^ 32 = omega (arith, address, lt) in
            rw (ok, slab_create)
              (subst (Kept s.paging) (sym (fill_slab-paging frame cache (map_frame frame s))) (
                paging_map-tables frame frame (taking s.paging) small taken,
                omega
                    (arith, one, paging_map-Spends frame frame 3 (taking s.paging) taken.allocator),
              ))
      ]
    ]

slab_take-paging : (slab : ℕ) (s : AddressSpace) → (slab_take slab s).1.paging ≡ s.paging
unfolding slab_take
slab_take-paging slab s = refl

grow-Kept :
    (cache : ℕ) (s : AddressSpace) → IsValid s.paging → Kept s.paging (grow cache s).1.paging
unfolding grow slab_take
grow-Kept cache s v = elim (Bool-cases ((slab_create cache s).0 == 0)) [
  | inl failed ↦ rw (failed, grow) (slab_create-Kept cache s v)
  | inr ok ↦ rw (ok, grow) (slab_create-Kept cache s v)
]

taken-Kept :
    (slab cache : ℕ) (s : AddressSpace)
    → IsValid s.paging
    → Kept s.paging (if slab == 0 then grow cache s else slab_take slab s).1.paging
unfolding slab_take
taken-Kept slab cache s v = elim (Bool-cases (slab == 0)) [
  | inl full ↦ rw full (grow-Kept cache s v)
  | inr found ↦ rw found (same-Kept s.paging v)
]

pub slab_alloc-Kept :
    (fuel cache x : ℕ) (s s' : AddressSpace)
    → IsValid s.paging
    → slab_alloc fuel cache s ≡ some (x, s')
    → Kept s.paging s'.paging
unfolding slab_alloc
slab_alloc-Kept fuel cache x s s' v e =
    elim (Option-cases (find_slab fuel (load (slabs cache) s) s)) [
      | inl endless ↦ absurd (ground (arith, endless, rw (endless, slab_alloc) at e))
      | inr (slab, found) ↦
          let result = some-injective _ _ (rw (found, slab_alloc) at e) in
          subst (λ (r : ℕ × AddressSpace). Kept s.paging r.1.paging) result
            (taken-Kept slab cache s v)
    ]
