-- ===== src/Paging/Release.antt =====
-- A page that is taken out of the page tables and whose frame goes back to the allocator, as
-- kfree_large of src/memory/heap.c and thread_destroy of src/tasks/thread.c do with each of theirs.
use xenon_os.Base.{
  ℕ, ◌+◌, ◌*◌, ◌/◌, ◌%◌, ◌^◌, ◌<◌, ◌≡◌, ◌≢◌, ◌==◌, if◌then◌else◌, some, none, arith, ap, ◌∙◌, subst,
  sym,
}
use xenon_os.Pmm.{Pmm, pmm_free}
use xenon_os.Pmm.Bounds
use xenon_os.Pmm.Bounds.{pmm_free-IsValid}
use xenon_os.Pmm.Frames.{used, used-pmm_free}
use xenon_os.Paging.{Paging, store_entry, paging_unmap, paging_get_physical}
use xenon_os.Paging.Mmu.{translate, entry_of, HasTable, IsValid}
use xenon_os.Paging.Allocator.{paging_unmap-pmm}
use xenon_os.Paging.Physical.{get_physical-present}
use xenon_os.Paging.Map.{paging_unmap_lem}

pub release_page : ℕ → Paging → Paging
release_page vaddr s =
    let frame = paging_get_physical vaddr s in
    let unmapped = paging_unmap vaddr s in record unmapped { pmm = pmm_free frame unmapped.pmm }

-- What the processor finds is what paging_get_physical reads.
pub get_physical-translate :
    (address p : ℕ) (s : Paging)
    → address / 2 ^ 22 < 1023
    → p < 2 ^ 32
    → translate s address ≡ some p
    → paging_get_physical address s ≡ p / 4096 * 4096
unfolding translate
get_physical-translate address p s a lt e =
    let entry : ℕ = entry_of s address in
    let there : HasTable (address / 2 ^ 22) s = ground (arith, e) in
    let value : p ≡ entry / 4096 * 4096 + address % 4096 = ground (arith, e) in
    get_physical-present address s a there (omega (arith, value)) ∙ omega (arith, value)

paging_unmap-directory :
    (address i : ℕ) (s : Paging) → (paging_unmap address s).page_directory i ≡ s.page_directory i
unfolding paging_unmap store_entry
paging_unmap-directory address i s = ground arith

-- The frame is free and every other frame is what it was; the page has no translation and every
-- other page has the one it had; no table is lost.
pub record Released (address frame : ℕ) (s s' : Paging) : Type 0 where
  pub valid : IsValid s'
  pub directory : (i : ℕ) → s'.page_directory i ≡ s.page_directory i
  pub frames_used : (f : ℕ) → used s'.pmm f ≡ (if f == frame then 0 else used s.pmm f)
  pub pages :
      (other : ℕ)
      → other / 2 ^ 22 < 1023
      → translate s' other ≡ (if other / 4096 == address / 4096 then none else translate s other)

pub release_page_lem :
    (address frame : ℕ) (s : Paging)
    → IsValid s
    → address / 2 ^ 22 < 1023
    → frame < 2 ^ 20
    → translate s address ≡ some (frame * 4096)
    → ((j : ℕ) → j < 1023 → HasTable j s → s.page_directory j / 4096 ≢ frame)
    → Released address frame s (release_page address s)
unfolding release_page
release_page_lem address frame s v a lt e own =
    let read : paging_get_physical address s ≡ frame * 4096 =
      get_physical-translate address (frame * 4096) s a (omega arith) e ∙ omega arith in
    let pmm_same = paging_unmap-pmm address s in
    let directory = λ (i : ℕ). paging_unmap-directory address i s in
    let frames_used : (f : ℕ)
        → used (release_page address s).pmm f ≡ (if f == frame then 0 else used s.pmm f) =
      λ f.
        used-pmm_free (paging_get_physical address s) f (paging_unmap address s).pmm
        ∙ ground (arith, read, ap (λ (p : Pmm). used p f) pmm_same) in
    record {
      valid = record {
        allocator = pmm_free-IsValid _ (subst Bounds.IsValid (sym pmm_same) v.allocator);
        tables_used = λ i low has.
            let has' : HasTable i s = ap (λ (d : ℕ). d % 2) (sym (directory i)) ∙ has in
            let apart = own i low has' in
            let before = v.tables_used i low has' in
            ap (λ (d : ℕ). used (release_page address s).pmm (d / 4096)) (directory i)
            ∙ frames_used (s.page_directory i / 4096)
            ∙ ground (arith, apart, before);
        apart = λ i j low low' has has' same.
            v.apart i j low low' (ap (λ (d : ℕ). d % 2) (sym (directory i)) ∙ has)
              (ap (λ (d : ℕ). d % 2) (sym (directory j)) ∙ has')
              (ap (λ (d : ℕ). d / 4096) (sym (directory i))
                ∙ same
                ∙ ap (λ (d : ℕ). d / 4096) (directory j));
      };
      directory = directory;
      frames_used = frames_used;
      pages = λ other b. unfold translate entry_of in paging_unmap_lem address other s v a b;
    }
