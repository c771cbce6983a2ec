-- ===== src/MemoryInfo/Total.antt =====
-- memory_get_kb adds up the available regions.
use mathlib.Core.Option
use xenon_os.Base.{
  ℕ, zero, suc, ◌+◌, ◌/◌, ◌%◌, ◌^◌, ◌<◌, ◌≡◌, ap, ◌∙◌, some, true, false, ltb, ◌==◌, if◌then◌else◌,
  add32, add64, List, length, arith,
}
use xenon_os.Multiboot.{Memory, read32, tag_size, tag_mmap}
use xenon_os.Multiboot.Tags.{TagsAt, first_of_type, multiboot_find_tag-eq-first}
use xenon_os.Pmm.{entry_len, entry_available}
use xenon_os.Pmm.Initialize.{EntriesAt, done, more}
use xenon_os.MemoryInfo.{sum_entries, memory_get_kb}

-- The bytes of the available regions among `n` entries from `entry` on.
unfoldable pub available_bytes : Memory → ℕ → ℕ → ℕ → ℕ
available_bytes m entry_size zero entry = 0
available_bytes m entry_size (suc n) entry =
    (if entry_available m entry then entry_len m entry else 0)
    + available_bytes m entry_size n (entry + entry_size)

sum_entries_lem :
    (fuel : ℕ) (m : Memory) (entry_size end total : ℕ) {entry n : ℕ}
    → EntriesAt m entry_size end entry n
    → n < fuel
    → total + available_bytes m entry_size n entry < 2 ^ 64
    → sum_entries fuel m entry_size end entry total
      ≡ some (total + available_bytes m entry_size n entry)
unfolding sum_entries available_bytes
sum_entries_lem zero m entry_size end total t h b = elim h [ ]
sum_entries_lem (suc fuel) m entry_size end total (done {entry} e) h b =
    let stop : ltb entry end ≡ false = ground arith in rw stop (ap some (omega arith))
sum_entries_lem (suc fuel) m entry_size end total (more {entry} {n} lt below fits rest) h b =
    let next : add32 entry entry_size ≡ entry + entry_size = omega arith in
    let go : ltb entry end ≡ true = ground arith in
    let part : ℕ = if entry_available m entry then entry_len m entry else 0 in
    let bound : total + (part + available_bytes m entry_size n (entry + entry_size)) < 2 ^ 64 = b in
    let same : (if entry_available m entry then add64 total (entry_len m entry) else total)
        ≡ total + part =
      ground (arith, bound) in
    rw (go, next, same)
      (sum_entries_lem fuel m entry_size end (total + part) rest (omega arith)
          (omega (arith, bound))
        ∙ ap some (omega arith))

-- On a well-formed boot information whose first memory-map tag lies at `tag`, memory_get_kb ends,
-- if its fuel exceeds the numbers of tags and of entries, with the size of all available regions
-- together, in KiB and modulo 2 ^ 32, where that size is below 2 ^ 64 bytes.
pub memory_get_kb_lem :
    (fuel : ℕ) (m : Memory) (address tag : ℕ) {tags : List ℕ} {n : ℕ}
    → TagsAt m (add32 address (read32 m address)) (add32 address 8) tags
    → first_of_type m tag_mmap tags ≡ tag
    → 0 < tag
    → tag + 16 < 2 ^ 32
    → EntriesAt m (read32 m (tag + 8)) (add32 tag (tag_size m tag)) (tag + 16) n
    → length tags < fuel
    → n < fuel
    → available_bytes m (read32 m (tag + 8)) n (tag + 16) < 2 ^ 64
    → memory_get_kb fuel m address
      ≡ some (available_bytes m (read32 m (tag + 8)) n (tag + 16) / 1024 % 2 ^ 32)
unfolding memory_get_kb Option.bind
memory_get_kb_lem fuel m address tag t first pos low entries ft fn b =
    let found = multiboot_find_tag-eq-first fuel m address tag_mmap t ft ∙ ap some first in
    let present : (tag == 0) ≡ false = ground arith in
    let start : add32 tag 16 ≡ tag + 16 = omega arith in
    let sum =
      sum_entries_lem fuel m (read32 m (tag + 8)) (add32 tag (tag_size m tag)) 0 entries fn
        (omega (arith, b)) in
    rw (found, present, start, sum) (ap some (omega arith))
