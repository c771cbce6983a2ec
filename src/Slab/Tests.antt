-- ===== src/Slab/Tests.antt =====
-- A cache of objects of 1024 bytes with one slab, and the theorems on it.
use xenon_os.Paging.Mmu as Paged
use xenon_os.Base.{
  ℕ, ◌+◌, ◌-◌, ◌*◌, ◌/◌, ◌^◌, ◌≡◌, ◌⊎◌, refl, ◌==◌, if◌then◌else◌, [], ◌∷◌, arith, inl, subst, sym,
  ◌%◌,
}
use xenon_os.Base.Bits.{bit}
use xenon_os.Base.Lists.{All}
use xenon_os.Memory.{Bytes, store32, load32}
use xenon_os.Pmm.{Pmm}
use xenon_os.Pmm.Bounds
use xenon_os.Slab.{AddressSpace, slab_alloc, slab_free}
use xenon_os.Slab.Layout.{View, HasObjects, IsFrame}
use xenon_os.Slab.Invariant.{IsCache}
use xenon_os.Slab.Search.{IsFull}
use xenon_os.Slab.Grow.{IsReserved}
use xenon_os.Slab.Alloc.{Taken, Grown, Failed, slab_alloc_lem}
use xenon_os.Slab.Free.{Freed, slab_free_lem}

-- The frames of the first two words are in use.
abbrev pub two_words : Pmm
two_words = record { bitmap = λ i. if i / 2 == 0 then 2 ^ 32 - 1 else 0; search_hint = 0 }

pub two_words-IsValid : Bounds.IsValid two_words
two_words-IsValid = record { words = λ i. ground arith; hint = omega arith }

-- The cache lies at 0x1000 and the slab at 0x20000, with the objects 0 and 2 live.
abbrev pub words : Bytes
words =
    store32
      (store32
        (store32
          (store32
            (store32 (store32 (store32 (store32 (λ a. 0) 0x1000 1024) 0x1004 0x20000) 0x20000 0)
              0x20004 0x1000)
            0x20008 (0x20000 + 20 + 1024))
          0x2000C 1)
        0x20010 3)
      (0x20000 + 20 + 1024) 0

abbrev pub machine : AddressSpace
machine = record {
  paging = record { pmm = two_words; page_directory = λ i. 2; frames = λ f i. 7; flushed = [] };
  memory = words;
}

pub machine-IsValid : Paged.IsValid machine.paging
machine-IsValid = record {
  allocator = two_words-IsValid;
  tables_used = λ i lt has. ground (arith, has);
  apart = λ i j lt lt' has has' same. ground (arith, has);
}

abbrev pub slab : View
slab = record {
  frame = 0x20000;
  free = (0x20000 + 20 + 1024) ∷ [];
  live = (0x20000 + 20) ∷ (0x20000 + 20 + 2 * 1024) ∷ [];
}

machine-IsReserved : IsReserved 0x1000 machine
machine-IsReserved = record {
  home = λ a low high.
      let page : a / 4096 ≡ 1 = omega arith in
      subst (λ (f : ℕ). bit (two_words.bitmap (f / 32)) (f % 32) ≡ 1) (sym page)
        (unfold bit in refl);
  below = omega arith;
  null = unfold bit in refl;
}

slab-HasObjects : HasObjects words 0x1000 1024 slab
slab-HasObjects = record {
  owner = unfold load32 store32 in refl;
  links = (unfold load32 store32 in refl, unfold load32 store32 in refl);
  count = unfold load32 store32 in refl;
  objects = ((1, omega arith, refl), ((0, omega arith, refl), ((2, omega arith, refl), tt)));
  distinct = (
    (λ e. omega (arith, e), (λ e. omega (arith, e), tt)),
    ((λ e. omega (arith, e), tt), (tt, tt)),
  );
  total = refl;
}

slab-IsFrame : IsFrame 0x1000 0x20000
slab-IsFrame = record {
  page = 32;
  aligned = refl;
  below = omega arith;
  proper = λ e. omega (arith, e);
  apart = inl (omega arith);
}

pub machine-IsCache : IsCache 0x1000 1024 machine (slab ∷ [])
machine-IsCache = (
  record {
    allocator = two_words-IsValid;
    object_size = unfold load32 store32 in refl;
    chain = (
      unfold load32 store32 in refl,
      (slab-HasObjects, unfold load32 store32 in refl),
      unfold load32 store32 in refl,
    );
    places = (slab-IsFrame, tt);
    apart = (tt, tt);
    owned = (unfold bit in refl, tt);
  },
  (omega arith, tt),
)

slab_alloc_lem_example :
    Taken 0x1000 1024 machine (slab ∷ []) (slab_alloc 2 0x1000 machine)
    ⊎ (All IsFull (slab ∷ [])
        × (Grown 0x1000 1024 machine (slab ∷ []) (slab_alloc 2 0x1000 machine)
            ⊎ Failed machine (slab_alloc 2 0x1000 machine)))
slab_alloc_lem_example =
    slab_alloc_lem 2 0x1000 1024 machine (slab ∷ []) (omega arith) (omega arith) (omega arith)
      machine-IsReserved machine-IsCache

slab_free_lem_example :
    Freed 0x1000 1024 machine [] slab []
      ((0x20000 + 20 + 2 * 1024) ∷ [])
      (0x20000 + 20)
      (slab_free 1 0x1000 (0x20000 + 20) machine)
slab_free_lem_example =
    slab_free_lem 1 0x1000 1024 machine [] slab [] [] ((0x20000 + 20 + 2 * 1024) ∷ [])
      (0x20000 + 20) (omega arith) refl (omega arith) machine-IsCache
