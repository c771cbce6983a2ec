-- ===== src/Paging/Tests.antt =====
-- A machine after boot, and the theorems on it.
use xenon_os.Base.{
  ℕ, ◌+◌, ◌-◌, ◌*◌, ◌/◌, ◌%◌, ◌^◌, ◌<◌, ◌≡◌, refl, false, ◌==◌, if◌then◌else◌, some, none, arith,
  ◌⊎◌, [],
}
use xenon_os.Base.Bits.{bit}
use xenon_os.Pmm.{Pmm, frame_count}
use xenon_os.Pmm.Frames.{used}
use xenon_os.Pmm.Bounds
use xenon_os.Paging.{Paging, paging_map, paging_unmap, paging_get_physical, paging_initialize}
use xenon_os.Paging.Mmu.{translate, IsValid}
use xenon_os.Paging.Map.{paging_map_lem, paging_unmap_lem}
use xenon_os.Paging.Physical.{paging_get_physical-paging_map}
use xenon_os.Paging.Boot.{paging_initialize_lem}

-- The frames of the first word are in use.
abbrev memory : Pmm
memory = record { bitmap = λ i. if i == 0 then 2 ^ 32 - 1 else 0; search_hint = 0 }

memory-IsValid : Bounds.IsValid memory
memory-IsValid = record { words = λ i. ground arith; hint = omega arith }

-- The directory lies at 0x2000 and the boot table at 0x3000.
abbrev cold : Paging
cold = record { pmm = memory; page_directory = λ i. 7; frames = λ f i. 7; flushed = [] }

abbrev warm : Paging
warm = paging_initialize 0x2000 (3 * 4096) cold

warm-IsValid : IsValid warm
warm-IsValid = (paging_initialize_lem 0x2000 3 cold memory-IsValid (unfold bit in refl)).0

paging_unmap_lem_example :
    translate (paging_unmap 0x5000 warm) 0x5123
    ≡ (if 0x5123 / 4096 == 0x5000 / 4096 then none else translate warm 0x5123)
paging_unmap_lem_example =
    paging_unmap_lem 0x5000 0x5123 warm warm-IsValid (omega arith) (omega arith)

paging_map_lem_example :
    ((paging_map 0xC0000000 0x54321 3 warm ≡ warm)
      × ((warm.page_directory (0xC0000000 / 2 ^ 22) % 2 == 1) ≡ false)
      × ((f : ℕ) → f < frame_count → used warm.pmm f ≡ 1))
    ⊎ (IsValid (paging_map 0xC0000000 0x54321 3 warm)
        × ((other : ℕ)
            → other / 2 ^ 22 < 1023
            → translate (paging_map 0xC0000000 0x54321 3 warm) other ≡ (
                if other / 4096 == 0xC0000000 / 4096
                then some (0x54321 / 4096 * 4096 + other % 4096)
                else translate warm other)))
paging_map_lem_example =
    paging_map_lem 0xC0000000 0x54321 3 warm warm-IsValid (omega arith) (omega arith) (omega arith)

-- Without any table.
abbrev bare : Paging
bare = record { pmm = memory; page_directory = λ i. 2; frames = λ f i. 7; flushed = [] }

bare-IsValid : IsValid bare
bare-IsValid = record {
  allocator = memory-IsValid;
  tables_used = λ i h t. absurd (omega (arith, t));
  apart = λ i j a b t. absurd (omega (arith, t));
}

paging_get_physical-paging_map_example :
    paging_get_physical 0xC0000ABC (paging_map 0xC0000000 0x54321 3 bare) ≡ 0x54321 / 4096 * 4096
paging_get_physical-paging_map_example =
    paging_get_physical-paging_map 0xC0000000 0x54321 3 0xC0000ABC 40 bare bare-IsValid
      (omega arith) (omega arith) (omega arith) (omega arith) (unfold bit in refl)
