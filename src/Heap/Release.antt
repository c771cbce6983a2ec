-- ===== src/Heap/Release.antt =====
-- The loop of kfree_large: every page and every frame of a block.
use xenon_os.Base.{
  ℕ, zero, suc, ◌+◌, ◌*◌, ◌/◌, ◌%◌, ◌^◌, ◌<◌, ◌≤◌, ◌≡◌, ◌≢◌, refl, true, false, ◌==◌, leb, ltb,
  ◌&&◌, if◌then◌else◌, some, none, arith, ap, ◌∙◌, subst, sym, dec_lt, add32, mul32, bit_and,
}
use xenon_os.Pmm.{page_size}
use xenon_os.Pmm.Frames.{used}
use xenon_os.Paging.{Paging}
use xenon_os.Paging.Mmu.{translate, HasTable, IsValid}
use xenon_os.Paging.Release.{Released, release_page, release_page_lem}
use xenon_os.Base.Masks.{bit_and-page}
use xenon_os.Slab.{load}
use xenon_os.Heap.{Heap, release_pages, kfree, kfree_large, large_alloc_magic}

-- The pages from number `i` to `i + left` of the block at `vbase` lie in the frames `g`, none of
-- which is the frame of a page table.
pub record Mapped (g : ℕ → ℕ) (left i vbase : ℕ) (s : Paging) : Type 0 where
  pub valid : IsValid s
  pub frames : (k : ℕ) → i ≤ k → k < i + left → g k < 2 ^ 20
  pub mapped : (k : ℕ) → i ≤ k → k < i + left → translate s (vbase + k * 4096) ≡ some (g k * 4096)
  pub tables :
      (k j : ℕ) → i ≤ k → k < i + left → j < 1023 → HasTable j s → s.page_directory j / 4096 ≢ g k

-- The frames are free, the others what they were; the pages have no translation, the others the one
-- they had.
pub record Unmapped (g : ℕ → ℕ) (left i vbase : ℕ) (s s' : Paging) : Type 0 where
  pub valid : IsValid s'
  pub given : (k : ℕ) → i ≤ k → k < i + left → used s'.pmm (g k) ≡ 0
  pub free : (f : ℕ) → used s.pmm f ≡ 0 → used s'.pmm f ≡ 0
  pub others : (f : ℕ) → ((k : ℕ) → i ≤ k → k < i + left → f ≢ g k) → used s'.pmm f ≡ used s.pmm f
  pub pages :
      (other : ℕ)
      → other / 2 ^ 22 < 1023
      → translate s' other ≡ (
          if leb (vbase / 4096 + i) (other / 4096) && ltb (other / 4096) (vbase / 4096 + i + left)
          then none
          else translate s other)

pub release_pages_lem :
    (g : ℕ → ℕ) (left i vbase : ℕ) (s : Paging)
    → vbase % 4096 ≡ 0
    → vbase + (i + left) * 4096 ≤ 0xFFC00000
    → Mapped g left i vbase s
    → Unmapped g left i vbase s (release_pages left i vbase s)
unfolding release_pages
release_pages_lem g zero i vbase s al low m = record {
  valid = m.valid;
  given = λ k p q. absurd (omega arith);
  free = λ f z. z;
  others = λ f n. refl;
  pages = λ other b. ground arith;
}
release_pages_lem g (suc left) i vbase s al low m =
    let address : ℕ = vbase + i * 4096 in
    let no_wrap : add32 vbase (mul32 i page_size) ≡ address = omega arith in
    let s1 : Paging = release_page address s in
    let r : Released address (g i) s s1 =
      release_page_lem address (g i) s m.valid (omega arith)
        (m.frames i (omega arith) (omega arith)) (m.mapped i (omega arith) (omega arith))
        (λ j. m.tables i j (omega arith) (omega arith)) in
    let m1 : Mapped g left (i + 1) vbase s1 = record {
      valid = r.valid;
      frames = λ k p q. m.frames k (omega arith) (omega arith);
      mapped = λ k p q.
          r.pages (vbase + k * 4096) (omega arith)
          ∙ ground (arith, m.mapped k (omega arith) (omega arith));
      tables = λ k j p q lt has e.
          m.tables k j (omega arith) (omega arith) lt
            (ap (λ (d : ℕ). d % 2) (sym (r.directory j)) ∙ has)
            (ap (λ (d : ℕ). d / 4096) (sym (r.directory j)) ∙ e);
    } in
    let u = release_pages_lem g left (i + 1) vbase s1 al (omega arith) m1 in
    subst
      (λ (a : ℕ).
        Unmapped g (suc left) i vbase s (release_pages left (i + 1) vbase (release_page a s)))
      (sym no_wrap)
      (record {
        valid = u.valid;
        given = λ k p q. elim (dec_lt i k) [
          | yes later ↦ u.given k (omega arith) (omega arith)
          | no now ↦
              let same : k ≡ i = omega arith in
              u.free (g k) (r.frames_used (g k) ∙ ground (arith, ap g same))
        ];
        free = λ f z. u.free f (r.frames_used f ∙ ground (arith, z));
        others = λ f n.
            u.others f (λ k p q. n k (omega arith) (omega arith))
            ∙ r.frames_used f
            ∙ ground (arith, n i (omega arith) (omega arith));
        pages = λ other b. u.pages other b ∙ ground (arith, r.pages other b);
      })

-- kfree of a large block, from the address behind its header, frees the frames of its pages and no
-- other, and takes away their translations and no other. The memory itself does not change.
pub kfree-large :
    (g : ℕ → ℕ) (fuel vbase pages : ℕ) (h : Heap)
    → vbase % 4096 ≡ 0
    → vbase + pages * 4096 ≤ 0xFFC00000
    → load vbase h.space ≡ large_alloc_magic
    → load (vbase + 4) h.space ≡ pages
    → Mapped g pages 0 vbase h.space.paging
    → (h' : Heap) × (kfree fuel (vbase + 8) h ≡ some h')
      × (h'.space.memory ≡ h.space.memory)
      × (h'.next_large_vaddr ≡ h.next_large_vaddr)
      × Unmapped g pages 0 vbase h.space.paging h'.space.paging
unfolding kfree kfree_large
kfree-large g fuel vbase pages h al low magic count m =
    let page : bit_and (vbase + 8) 0xFFFFF000 ≡ vbase =
      bit_and-page (vbase + 8) (omega arith) ∙ omega arith in
    let real : (vbase + 8 == 0) ≡ false = ground arith in
    let tag : (load vbase h.space == large_alloc_magic) ≡ true = ground (arith, magic) in
    (
      record h { space = kfree_large vbase h.space },
      rw (real, page, tag, kfree) refl,
      refl,
      refl,
      subst
          (λ (n : ℕ).
            Unmapped g pages 0 vbase h.space.paging (release_pages n 0 vbase h.space.paging))
          (sym count) (release_pages_lem g pages 0 vbase h.space.paging al (omega arith) m),
    )
