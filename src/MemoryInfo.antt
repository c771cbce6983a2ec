-- ===== src/MemoryInfo.antt =====
-- src/memory/memory.c: how much memory the boot loader reports.
pub mod Total
use xenon_os.Base.{
  ℕ, zero, suc, ◌+◌, ◌*◌, ◌/◌, ◌%◌, ◌^◌, Option, none, some, true, false, ltb, ◌==◌, if◌then◌else◌,
  add32, add64,
}
use xenon_os.Multiboot.{Memory, read32, tag_size, tag_mmap, tag_basic_memory, multiboot_find_tag}
use xenon_os.Pmm.{entry_len, entry_available}
use mathlib.Core.Option

-- The loop `while (entry_ptr < end)`, with fuel: `none` is a walk that has not ended.
pub sum_entries : ℕ → Memory → ℕ → ℕ → ℕ → ℕ → Option ℕ
sum_entries zero m entry_size end entry total_bytes = none
sum_entries (suc fuel) m entry_size end entry total_bytes =
    let total_bytes' =
      if entry_available m entry then add64 total_bytes (entry_len m entry) else total_bytes in
    let rest = sum_entries fuel m entry_size end (add32 entry entry_size) total_bytes' in
    if ltb entry end then rest else some total_bytes

-- The fallback: mem_upper is at offset 12 of struct multiboot_tag_basic_memory.
pub basic_memory_kb : Memory → ℕ → ℕ
basic_memory_kb m mem_tag = if mem_tag == 0 then 0 else add32 (read32 m (mem_tag + 12)) 1024

pub memory_get_kb : ℕ → Memory → ℕ → Option ℕ
memory_get_kb fuel m address = Option.bind (multiboot_find_tag fuel m address tag_mmap) λ mmap_tag.
    if mmap_tag == 0
    then Option.map (basic_memory_kb m) (multiboot_find_tag fuel m address tag_basic_memory)
    else Option.map (λ total_bytes. total_bytes / 1024 % 2 ^ 32)
        (sum_entries fuel m (read32 m (mmap_tag + 8)) (add32 mmap_tag (tag_size m mmap_tag))
          (add32 mmap_tag 16) 0)
