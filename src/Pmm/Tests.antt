-- ===== src/Pmm/Tests.antt =====
-- Runs of the allocator of src/memory/pmm.c, and its theorems at concrete states.
use xenon_os.Base.{
  ℕ, ◌-◌, ◌*◌, ◌<◌, ◌≡◌, ◌≢◌, ◌⊎◌, refl, some, List, [], ◌∷◌, arith, get_or, if◌then◌else◌, ◌==◌,
}
use xenon_os.Base.Bits.{bit}
use xenon_os.Multiboot.{Memory}
use xenon_os.Multiboot.Tags.{TagsAt, present, end_tag, first_of_type}
use xenon_os.MemoryInfo.{memory_get_kb}
use xenon_os.MemoryInfo.Total.{available_bytes, memory_get_kb_lem}
use xenon_os.Pmm.{
  Pmm, full_word, no_frame, frame_count, page_size, ctz, scan, first_free_frame, set_frame,
  pmm_alloc, pmm_free, pmm_initialize, entry_available,
}
use xenon_os.Pmm.Frames.{used}
use xenon_os.Pmm.Bounds.{IsValid}
use xenon_os.Pmm.Alloc.{pmm_alloc-cases, pmm_free-pmm_alloc, pmm_alloc-ok}
use xenon_os.Pmm.Initialize.{EntriesAt, done, more, freed, pmm_initialize_lem}

-- All frames are free but the first 34.
abbrev pub booted : Pmm
booted = record {
  bitmap = λ i. if i == 0 then full_word else if i == 1 then 3 else 0;
  search_hint = 0;
}

pub booted-IsValid : IsValid booted
booted-IsValid = record { words = λ i. ground arith; hint = omega arith }

pmm_alloc-booted : (pmm_alloc booted).0 ≡ 34 * 4096
unfolding pmm_alloc first_free_frame scan ctz
pmm_alloc-booted = refl

pmm_alloc_twice : (pmm_alloc (pmm_alloc booted).1).0 ≡ 35 * 4096
unfolding pmm_alloc first_free_frame scan ctz set_frame
pmm_alloc_twice = refl

booted_ok : (pmm_alloc booted).0 ≢ no_frame
booted_ok = pmm_alloc-ok 34 booted-IsValid (omega arith) (unfold bit in refl)

pmm_alloc-cases_example :
    ((pmm_alloc booted ≡ (no_frame, booted)) × ((f : ℕ) → f < frame_count → used booted f ≡ 1))
    ⊎ ((f : ℕ) × (f < frame_count)
        × ((pmm_alloc booted).0 ≡ f * page_size)
        × (used booted f ≡ 0)
        × ((g : ℕ) → used (pmm_alloc booted).1 g ≡ (if f == g then 1 else used booted g)))
pmm_alloc-cases_example = pmm_alloc-cases booted-IsValid

pmm_free-pmm_alloc_example :
    used (pmm_free (pmm_alloc booted).0 (pmm_alloc booted).1) 34 ≡ used booted 34
pmm_free-pmm_alloc_example = pmm_free-pmm_alloc 34 booted-IsValid booted_ok

-- A 32-bit word as four bytes.
abbrev le32 : ℕ → ℕ → ℕ → ℕ → List ℕ → List ℕ
le32 a b c d rest = a ∷ b ∷ c ∷ d ∷ rest

-- One available region of 4 MB at 0, then the end tag.
abbrev boot_bytes : List ℕ
boot_bytes = le32 56 0 0 0 (
    le32 0 0 0 0 (
      le32 6 0 0 0 (
        le32 40 0 0 0 (
          le32 24 0 0 0 (
            le32 0 0 0 0 (
              le32 0 0 0 0 (
                le32 0 0 0 0 (
                  le32 0 0 0x40 0 (
                    le32 0 0 0 0
                      (le32 1 0 0 0 (le32 0 0 0 0 (le32 0 0 0 0 (le32 8 0 0 0 [])))))))))))))

abbrev pub boot_image : Memory
boot_image a = get_or boot_bytes (a - 0x400) 0

pub boot_tags : TagsAt boot_image 0x438 0x408 (0x408 ∷ [])
boot_tags = present (omega arith) (omega arith) refl (omega arith) (end_tag refl)

pub boot_entries : EntriesAt boot_image 24 0x430 0x418 1
boot_entries = more (omega arith) (omega arith) (omega arith) (done (omega arith))

pmm_initialize_lem_example :
    (p' : Pmm) × (pmm_initialize 2 boot_image 0x400 0x100000 0x200000 booted ≡ some p')
    × IsValid p'
    × (used p' 0x300 ≡ 0)
unfolding first_of_type freed entry_available
pmm_initialize_lem_example =
    pmm_initialize_lem 2 boot_image 0x400 0x100000 0x200000 0x408 0x300 booted booted-IsValid
      boot_tags refl (omega arith) (omega arith) boot_entries (omega arith) (omega arith)
      (omega arith) (omega arith) (omega arith)

memory_get_kb_lem_example : memory_get_kb 2 boot_image 0x400 ≡ some 4096
unfolding first_of_type available_bytes entry_available
memory_get_kb_lem_example =
    memory_get_kb_lem 2 boot_image 0x400 0x408 boot_tags refl (omega arith) (omega arith)
      boot_entries (omega arith) (omega arith) (omega arith)
