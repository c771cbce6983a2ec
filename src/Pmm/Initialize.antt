-- ===== src/Pmm/Initialize.antt =====
-- pmm_initialize: which frames are free after it.
use mathlib.Core.Option
use xenon_os.Base.{
  ℕ, zero, suc, ◌+◌, ◌-◌, ◌/◌, ◌%◌, ◌^◌, ◌≤◌, ◌<◌, ◌≡◌, refl, some, Option, arith, Bool, true,
  false, ◌&&◌, ◌||◌, ltb, leb, ◌==◌, if◌then◌else◌, add32, sub32, List, update, length, ◌∙◌, ap,
  Bool-cases, inl, inr,
}
use xenon_os.Base.Bits.{bit-all_ones}
use xenon_os.Multiboot.{Memory, read32, tag_size, tag_mmap}
use xenon_os.Multiboot.Tags.{TagsAt, first_of_type, multiboot_find_tag-eq-first}
use xenon_os.Pmm.{
  Pmm, bitmap_size, frame_count, page_size, full_word, fill_words, entry_addr, entry_len,
  entry_available, free_entry, free_entries, free_available, reserve_kernel, pmm_initialize,
  reserve_region,
}
use xenon_os.Pmm.Frames.{used, inside, overlaps, used-free_region, used-reserve_region}
use xenon_os.Pmm.Bounds.{IsValid, free_region-IsValid, reserve_region-IsValid}

fill_words-at :
    (n i j : ℕ) (p : Pmm)
    → (fill_words n i p).bitmap j ≡ (if leb i j && ltb j (i + n) then full_word else p.bitmap j)
unfolding fill_words
fill_words-at zero i j p = ground arith
fill_words-at (suc n) i j p =
    ground (arith, fill_words-at n (i + 1) j (record p { bitmap = update p.bitmap i full_word }))

fill_words-hint : (n i : ℕ) (p : Pmm) → (fill_words n i p).search_hint ≡ p.search_hint
unfolding fill_words
fill_words-hint zero i p = refl
fill_words-hint (suc n) i p = fill_words-hint n (i + 1) _

-- Some available entry of the `n` entries from `entry` on contains the frame.
unfoldable pub freed : Memory → ℕ → ℕ → ℕ → ℕ → Bool
freed m entry_size zero entry g = false
freed m entry_size (suc n) entry g =
    (entry_available m entry && inside (entry_addr m entry) (entry_len m entry) g)
    || freed m entry_size n (entry + entry_size) g

-- The memory map of a well-behaved boot loader: `n` entries fill the tag up to `end`, the walk
-- stays below 4 GB, and no region comes near the end of the 64-bit address space.
pub data EntriesAt (m : Memory) (entry_size end : ℕ) : ℕ → ℕ → Type 0 where
  done : {entry : ℕ} → end ≤ entry → EntriesAt m entry_size end entry 0
  more :
      {entry n : ℕ}
      → entry < end
      → entry + entry_size < 2 ^ 32
      → entry_addr m entry + entry_len m entry + page_size < 2 ^ 64
      → EntriesAt m entry_size end (entry + entry_size) n
      → EntriesAt m entry_size end entry (suc n)

fill_words-IsValid : {p : Pmm} → IsValid p → IsValid (fill_words bitmap_size 0 p)
fill_words-IsValid {p} v = record {
  words = λ i. ground (arith, v.words i, fill_words-at bitmap_size 0 i p);
  hint = rw fill_words-hint v.hint;
}

used-fill_words : (g : ℕ) (p : Pmm) → g < frame_count → used (fill_words bitmap_size 0 p) g ≡ 1
used-fill_words g p h =
    ground (arith, fill_words-at bitmap_size 0 (g / 32) p, bit-all_ones 32 (g % 32) (omega arith))

free_entry-IsValid : (m : Memory) (entry : ℕ) {p : Pmm} → IsValid p → IsValid (free_entry m entry p)
unfolding free_entry
free_entry-IsValid m entry {p} v = elim (Bool-cases (entry_available m entry)) [
  | inl e ↦ rw e (free_region-IsValid (entry_addr m entry) (entry_len m entry) v)
  | inr e ↦ rw e v
]

used-free_entry :
    (m : Memory) (entry g : ℕ) (p : Pmm)
    → entry_addr m entry + entry_len m entry + page_size < 2 ^ 64
    → g < frame_count
    → used (free_entry m entry p) g ≡ (
        if entry_available m entry && inside (entry_addr m entry) (entry_len m entry) g
        then 0
        else used p g)
unfolding free_entry
used-free_entry m entry g p h q = elim (Bool-cases (entry_available m entry)) [
  | inl e ↦ rw e (used-free_region (entry_addr m entry) (entry_len m entry) g p h q)
  | inr e ↦ rw e refl
]

-- What step 2 makes of a frame that was in the state `before`.
abbrev Freed : Memory → ℕ → ℕ → ℕ → ℕ → ℕ → Option Pmm → Type 0
Freed m entry_size n entry g before result =
    (p' : Pmm) × (result ≡ some p')
    × IsValid p'
    × (used p' g ≡ (if freed m entry_size n entry g then 0 else before))

free_entries_lem :
    (fuel : ℕ) (m : Memory) (entry_size end g : ℕ) {entry n : ℕ} {p : Pmm}
    → g < frame_count
    → IsValid p
    → EntriesAt m entry_size end entry n
    → n < fuel
    → Freed m entry_size n entry g (used p g) (free_entries fuel m entry_size end entry p)
unfolding free_entries freed
free_entries_lem zero m entry_size end g q v t h = elim h [ ]
free_entries_lem (suc fuel) m entry_size end g {p} q v (done e) h = (p, ground arith, v, refl)
free_entries_lem (suc fuel) m entry_size end g {p} q v (more {entry} {n} lt below fits rest) h =
    let next : add32 entry entry_size ≡ entry + entry_size = omega arith in
    let go : ltb entry end ≡ true = ground arith in
    let (p', e, v', u) =
      free_entries_lem fuel m entry_size end g q (free_entry-IsValid m entry v) rest
        (omega arith) in
    (p', rw (go, next) e, v', ground (arith, u, used-free_entry m entry g p fits q))

-- The reservations of step 3.
abbrev pub reserved : ℕ → ℕ → ℕ → Bool
reserved kstart kend g = overlaps 0 0x100000 g || overlaps kstart (kend - kstart) g

used-reserve_kernel :
    (kstart kend g : ℕ) (p : Pmm)
    → kstart < kend
    → kend < 2 ^ 32
    → g < frame_count
    → used (reserve_kernel kstart kend p) g ≡ (if reserved kstart kend g then 1 else used p g)
unfolding reserve_kernel
used-reserve_kernel kstart kend g p h k q =
    let size : sub32 kend kstart ≡ kend - kstart = omega arith in
    let low = reserve_region 0 0x100000 p in
    rw size (
      ground (
        arith,
        used-reserve_region kstart (kend - kstart) g low (omega arith) (omega arith) q,
        used-reserve_region 0 0x100000 g p (omega arith) (omega arith) q,
      ))

reserve_kernel-IsValid :
    (kstart kend : ℕ) {p : Pmm} → IsValid p → IsValid (reserve_kernel kstart kend p)
unfolding reserve_kernel
reserve_kernel-IsValid kstart kend v =
    reserve_region-IsValid kstart (sub32 kend kstart) (reserve_region-IsValid 0 0x100000 v)

-- Started on a well-formed boot information whose first memory-map tag lies at `tag`,
-- pmm_initialize ends, if its fuel exceeds the numbers of tags and of entries, in a valid state in
-- which a frame below FRAME_COUNT is free exactly if some available region contains it as a whole
-- and neither the low 1 MiB nor the kernel image touches it.
pub pmm_initialize_lem :
    (fuel : ℕ) (m : Memory) (address kstart kend tag g : ℕ) (p : Pmm) {tags : List ℕ} {n : ℕ}
    → IsValid p
    → TagsAt m (add32 address (read32 m address)) (add32 address 8) tags
    → first_of_type m tag_mmap tags ≡ tag
    → 0 < tag
    → tag + 16 < 2 ^ 32
    → EntriesAt m (read32 m (tag + 8)) (add32 tag (tag_size m tag)) (tag + 16) n
    → length tags < fuel
    → n < fuel
    → kstart < kend
    → kend < 2 ^ 32
    → g < frame_count
    → (p' : Pmm) × (pmm_initialize fuel m address kstart kend p ≡ some p')
      × IsValid p'
      × (used p' g ≡ (
          if reserved kstart kend g
          then 1
          else if freed m (read32 m (tag + 8)) n (tag + 16) g
          then 0
          else 1))
unfolding pmm_initialize free_available Option.bind
pmm_initialize_lem fuel m address kstart kend tag g p v t first pos low entries ft fn k kl q =
    let found = multiboot_find_tag-eq-first fuel m address tag_mmap t ft ∙ ap some first in
    let (p', e, v', u) =
      free_entries_lem fuel m (read32 m (tag + 8)) (add32 tag (tag_size m tag)) g q
        (fill_words-IsValid v) entries fn in
    let present : (tag == 0) ≡ false = ground arith in
    let start : add32 tag 16 ≡ tag + 16 = omega arith in
    (
      reserve_kernel kstart kend p',
      rw (found, present, start, e),
      reserve_kernel-IsValid kstart kend v',
      ground (arith, used-reserve_kernel kstart kend g p' k kl q, u, used-fill_words g p q),
    )
