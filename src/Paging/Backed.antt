-- ===== src/Paging/Backed.antt =====
-- Pages of a region that are mapped one after the other to new frames, as kmalloc_large of
-- src/memory/heap.c and thread_create_sized of src/tasks/thread.c do.
use xenon_os.Base.{
  ℕ, suc, ◌+◌, ◌*◌, ◌/◌, ◌%◌, ◌^◌, ◌<◌, ◌≤◌, ◌≡◌, ◌≢◌, ◌⊎◌, inl, inr, refl, false, ◌==◌,
  if◌then◌else◌, some, arith, ap, ◌∙◌, subst, sym, ℕ_discrete,
}
use xenon_os.Base.Bits.{bit-lt}
use xenon_os.Pmm.{Pmm, pmm_alloc, frame_count, page_size}
use xenon_os.Pmm.Bounds.{pmm_alloc-IsValid}
use xenon_os.Pmm.Frames.{used}
use xenon_os.Paging.{Paging, paging_map}
use xenon_os.Paging.Mmu.{translate, entry_of, IsValid}
use xenon_os.Paging.Allocator.{paging_map-Grows}

abbrev pub NoFrame : Pmm → Type 0
NoFrame p = (f : ℕ) → f < frame_count → used p f ≡ 1

-- The page of an address could not be mapped: its table is missing, and no frame is left for one.
abbrev pub Unmappable : ℕ → Paging → Type 0
Unmappable address s = NoFrame s.pmm × ((s.page_directory (address / 2 ^ 22) % 2 == 1) ≡ false)

-- Each of the pages from number `i` to `i + left` of the region at `vbase` has got a frame of its own
-- that was free before, and leads to it, or could not be mapped; the other pages are what they were, and no frame
-- has been given back.
pub record Backed (left i vbase : ℕ) (s s' : Paging) : Type 0 where
  pub frame : ℕ → ℕ
  pub valid : IsValid s'
  pub below : (k : ℕ) → i ≤ k → k < i + left → frame k < frame_count
  pub was_free : (k : ℕ) → i ≤ k → k < i + left → used s.pmm (frame k) ≡ 0
  pub taken : (k : ℕ) → i ≤ k → k < i + left → used s'.pmm (frame k) ≡ 1
  pub distinct : (k l : ℕ) → i ≤ k → k < l → l < i + left → frame k ≢ frame l
  pub page :
      (k : ℕ)
      → i ≤ k
      → k < i + left
      → (translate s' (vbase + k * 4096) ≡ some (frame k * 4096)) ⊎ Unmappable (vbase + k * 4096) s'
  pub others :
      (other : ℕ)
      → other / 2 ^ 22 < 1023
      → ((k : ℕ) → i ≤ k → k < i + left → other / 4096 ≢ vbase / 4096 + k)
      → translate s' other ≡ translate s other
  pub kept : (f : ℕ) → used s.pmm f ≡ 1 → used s'.pmm f ≡ 1

pub none-Backed : (i vbase : ℕ) (s : Paging) → IsValid s → Backed 0 i vbase s s
none-Backed i vbase s v = record {
  frame = λ k. 0;
  valid = v;
  below = λ k p q. absurd (omega arith);
  was_free = λ k p q. absurd (omega arith);
  taken = λ k p q. absurd (omega arith);
  distinct = λ k l p q r. absurd (omega arith);
  page = λ k p q. absurd (omega arith);
  others = λ other b n. refl;
  kept = λ f u. u;
}

-- The state after pmm_alloc.
abbrev pub taking : Paging → Paging
taking s = record s { pmm = (pmm_alloc s.pmm).1 }

taking-translate : (other : ℕ) (s : Paging) → translate (taking s) other ≡ translate s other
unfolding translate entry_of
taking-translate other s = refl

module _ (i vbase f : ℕ) (s : Paging) (v : IsValid s)
    (taken : (g : ℕ) → used (pmm_alloc s.pmm).1 g ≡ (if f == g then 1 else used s.pmm g)) where
  pub taking-IsValid : IsValid (taking s)
  taking-IsValid = record {
    allocator = pmm_alloc-IsValid v.allocator;
    tables_used =
        λ j low has. taken (s.page_directory j / 4096) ∙ ground (arith, v.tables_used j low has);
    apart = v.apart;
  }

  module _ (lt : f < frame_count) (fresh : used s.pmm f ≡ 0) where
    abbrev mapped : Paging
    mapped = paging_map (vbase + i * 4096) (f * page_size) 3 (taking s)

    mapped-kept : (g : ℕ) → used (pmm_alloc s.pmm).1 g ≡ 1 → used mapped.pmm g ≡ 1
    mapped-kept =
        (paging_map-Grows (vbase + i * 4096) (f * page_size) 3 (taking s)
          (pmm_alloc-IsValid v.allocator)).1

    mapped-since : (g : ℕ) → used mapped.pmm g ≡ 0 → (used s.pmm g ≡ 0) × (g ≢ f)
    mapped-since g u = (
      elim (ℕ_discrete (used s.pmm g) 1) [
        | yes w ↦ absurd (omega (arith, u, mapped-kept g (taken g ∙ ground (arith, w))))
        | no w ↦ omega (arith, w, bit-lt (s.pmm.bitmap (g / 32)) (g % 32))
      ],
      λ same. absurd (omega (arith, u, mapped-kept g (taken g ∙ ground (arith, same)))),
    )

    -- One more page in front.
    module _ (left : ℕ) (al : vbase % 4096 ≡ 0) (low : vbase + (i + suc left) * 4096 ≤ 0xFFC00000)
        (pages : (other : ℕ)
          → other / 2 ^ 22 < 1023
          → translate mapped other ≡ (
              if other / 4096 == (vbase + i * 4096) / 4096
              then some (f * page_size / 4096 * 4096 + other % 4096)
              else translate (taking s) other))
        (s' : Paging) (b : Backed left (i + 1) vbase mapped s') where
      abbrev frames : ℕ → ℕ
      frames k = if k == i then f else b.frame k

      frames-first : frames i ≡ f
      frames-first = ground arith

      frames-later : (k : ℕ) → i < k → frames k ≡ b.frame k
      frames-later k lt' = ground arith

      -- What holds of the first page and of the later ones holds of each.
      each :
          (P : ℕ → ℕ → Type 0)
          → P i f
          → ((k : ℕ) → i < k → k < i + suc left → P k (b.frame k))
          → (k : ℕ) → i ≤ k
          → k < i + suc left
          → P k (frames k)
      each P first later k p q = elim (ℕ_discrete k i) [
        | yes here ↦ subst (λ n. P n (frames n)) (sym here) (subst (P i) (sym frames-first) first)
        | no other ↦
            subst (P k) (sym (frames-later k (omega (arith, other))))
              (later k (omega (arith, other)) q)
      ]

      first-page : translate s' (vbase + i * 4096) ≡ some (f * 4096)
      first-page =
          b.others (vbase + i * 4096) (omega arith) (λ k p q e. absurd (omega (arith, e)))
          ∙ pages (vbase + i * 4096) (omega arith)
          ∙ ground arith

      pub more-Backed : Backed (suc left) i vbase s s'
      more-Backed = record {
        frame = frames;
        valid = b.valid;
        below = each (λ k g. g < frame_count) lt (λ k p q. b.below k (omega arith) (omega arith));
        was_free =
            each (λ k g. used s.pmm g ≡ 0) fresh
              (λ k p q. (mapped-since _ (b.was_free k (omega arith) (omega arith))).0);
        taken =
            each (λ k g. used s'.pmm g ≡ 1) (b.kept f (mapped-kept f (taken f ∙ ground arith)))
              (λ k p q. b.taken k (omega arith) (omega arith));
        distinct = λ k l p q r. elim (ℕ_discrete k i) [
          | yes here ↦ λ e.
              (mapped-since _ (b.was_free l (omega arith) (omega arith))).1
                (sym (frames-later l (omega arith)) ∙ sym e ∙ ap frames here ∙ frames-first)
          | no other ↦ λ e.
              b.distinct k l (omega (arith, other)) q (omega arith)
                (sym (frames-later k (omega (arith, other))) ∙ e ∙ frames-later l (omega arith))
        ];
        page =
            each
              (λ k g.
                (translate s' (vbase + k * 4096) ≡ some (g * 4096))
                ⊎ Unmappable (vbase + k * 4096) s')
              (inl first-page) (λ k p q. b.page k (omega arith) (omega arith));
        others = λ other c n.
            let apart = n i (omega arith) (omega arith) in
            let elsewhere : (other / 4096 == (vbase + i * 4096) / 4096) ≡ false =
              ground (arith, apart, al) in
            b.others other c (λ k p q. n k (omega arith) (omega arith))
            ∙ pages other c
            ∙ rw elsewhere (taking-translate other s);
        kept = λ g u. b.kept g (mapped-kept g (taken g ∙ ground (arith, u)));
      }

    -- The last page, when no frame is left for its table.
    pub last-Backed :
        mapped ≡ taking s → Unmappable (vbase + i * 4096) (taking s) → Backed 1 i vbase s mapped
    last-Backed same missing = subst (Backed 1 i vbase s) (sym same) (record {
      frame = λ k. f;
      valid = taking-IsValid;
      below = λ k p q. lt;
      was_free = λ k p q. fresh;
      taken = λ k p q. taken f ∙ ground arith;
      distinct = λ k l p q r. absurd (omega arith);
      page = λ k p q.
          let only : k ≡ i = omega arith in
          inr (subst (λ n. Unmappable (vbase + n * 4096) (taking s)) (sym only) missing);
      others = λ other c n. taking-translate other s;
      kept = λ g u. taken g ∙ ground (arith, u);
    })
