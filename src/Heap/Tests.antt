-- ===== src/Heap/Tests.antt =====
-- A block of one page, in the frame 64, and the theorems on it and on the cache of Slab.Tests.
use xenon_os.Base.{
  ℕ, ◌+◌, ◌*◌, ◌/◌, ◌%◌, ◌≡◌, refl, ◌==◌, if◌then◌else◌, [], ◌∷◌, arith, some, subst, sym,
}
use xenon_os.Base.Bits.{bit}
use xenon_os.Memory.{store32, load32}
use xenon_os.Paging.{Paging}
use xenon_os.Paging.Mmu.{IsValid, translate, entry_of}
use xenon_os.Slab.{slab_free}
use xenon_os.Slab.Tests.{
  two_words, two_words-IsValid, machine, machine-IsCache, machine-IsValid, slab,
}
use xenon_os.Heap.{Heap, kmalloc_large, kfree}
use xenon_os.Heap.Large.{Outcome, kmalloc_large_lem}
use xenon_os.Heap.Release.{Mapped, Unmapped, kfree-large}
use xenon_os.Heap.Dispatch.{kfree-slab}
use mathlib.Core.Option

-- The table for 0xC0000000 lies in the frame 5.
abbrev one_page : Paging
one_page = record {
  pmm = two_words;
  page_directory = λ i. if i == 768 then 0x5003 else 2;
  frames = λ f i. if f == 5 then 0x40003 else 7;
  flushed = [];
}

one_page-IsValid : IsValid one_page
one_page-IsValid = record {
  allocator = two_words-IsValid;
  tables_used = λ i lt has.
      let here : i ≡ 768 = ground (arith, has) in
      subst
        (λ (j : ℕ).
          bit (two_words.bitmap (one_page.page_directory j / 4096 / 32))
            (one_page.page_directory j / 4096 % 32)
          ≡ 1)
        (sym here) (unfold bit in refl);
  apart = λ i j lt lt' has has' same. ground (arith, has, has');
}

abbrev heap : Heap
heap = record { space = machine; next_large_vaddr = 0xC0000000 }

abbrev block : Heap
block = record {
  space = record {
    paging = one_page;
    memory = store32 (store32 (λ a. 0) 0xC0000000 0x4C524745) 0xC0000004 1;
  };
  next_large_vaddr = 0xC0001000;
}

abbrev frame_64 : ℕ → ℕ
frame_64 k = 64

block-Mapped : Mapped frame_64 1 0 0xC0000000 one_page
block-Mapped = record {
  valid = one_page-IsValid;
  frames = λ k p q. omega arith;
  mapped = λ k p q.
      let first : k ≡ 0 = omega arith in
      subst (λ (n : ℕ). translate one_page (0xC0000000 + n * 4096) ≡ some (64 * 4096)) (sym first)
        (unfold translate entry_of in refl);
  tables = λ k j p q lt has. ground (arith, has);
}

kfree-large_example :
    (h' : Heap) × (kfree 0 (0xC0000000 + 8) block ≡ some h')
    × (h'.space.memory ≡ block.space.memory)
    × (h'.next_large_vaddr ≡ block.next_large_vaddr)
    × Unmapped frame_64 1 0 0xC0000000 block.space.paging h'.space.paging
kfree-large_example =
    kfree-large frame_64 0 0xC0000000 1 block (omega arith) (omega arith)
      (unfold load32 store32 in refl) (unfold load32 store32 in refl) block-Mapped

kfree-slab_example :
    kfree 1 (0x20000 + 20) heap
    ≡ Option.map (λ s. record heap { space = s }) (slab_free 1 0x1000 (0x20000 + 20) heap.space)
kfree-slab_example =
    kfree-slab 1 0x1000 1024 heap [] slab [] [] ((0x20000 + 20 + 2 * 1024) ∷ []) (0x20000 + 20)
      (omega arith) refl machine-IsCache

kmalloc_large_lem_example : Outcome 5000 heap (kmalloc_large 5000 heap)
kmalloc_large_lem_example =
    kmalloc_large_lem 5000 heap (omega arith) (omega arith) (omega arith) machine-IsValid
