-- ===== src/Multiboot.antt =====
-- src/memory/multiboot.c, multiboot.h: the boot information that GRUB leaves in memory, read as
-- bytes (little-endian). A pointer is its address, and NULL is 0.
pub mod Tags
use xenon_os.Base.{
  ℕ, zero, suc, ◌+◌, ◌*◌, ◌^◌, Option, none, some, true, false, ltb, ◌==◌, if◌then◌else◌, bit_and,
  add32,
}
use xenon_os.Base.Bits.{complement}

-- The byte at each address.
abbrev pub Memory : Type 0
Memory = ℕ → ℕ

abbrev pub read32 : Memory → ℕ → ℕ
read32 m a = m a + 2 ^ 8 * m (a + 1) + 2 ^ 16 * m (a + 2) + 2 ^ 24 * m (a + 3)

abbrev pub read64 : Memory → ℕ → ℕ
read64 m a = read32 m a + 2 ^ 32 * read32 m (a + 4)

-- MULTIBOOT_TAG_END, MULTIBOOT_TAG_BASIC_MEMORY, MULTIBOOT_TAG_MMAP, MULTIBOOT_TAG_FRAMEBUFFER
abbrev pub tag_end : ℕ
tag_end = 0

abbrev pub tag_basic_memory : ℕ
tag_basic_memory = 4

abbrev pub tag_mmap : ℕ
tag_mmap = 6

abbrev pub tag_framebuffer : ℕ
tag_framebuffer = 8

-- struct multiboot_tag
abbrev pub tag_type : Memory → ℕ → ℕ
tag_type m tag = read32 m tag

abbrev pub tag_size : Memory → ℕ → ℕ
tag_size m tag = read32 m (tag + 4)

-- `(tag->size + 7) & ~7u`
abbrev pub padded_size : Memory → ℕ → ℕ
padded_size m tag = bit_and (add32 (tag_size m tag) 7) (complement 32 7)

-- The loop of multiboot_find_tag, with fuel: `none` is a walk that has not ended.
unfoldable pub find_tag_loop : ℕ → Memory → ℕ → ℕ → ℕ → Option ℕ
find_tag_loop zero m type end ptr = none
find_tag_loop (suc fuel) m type end ptr =
    let rest = find_tag_loop fuel m type end (add32 ptr (padded_size m ptr)) in
    if ltb ptr end
    then if tag_type m ptr == tag_end
      then some 0
      else if tag_type m ptr == type
      then some ptr
      else rest
    else some 0

-- The header is 8 bytes: total_size and reserved.
unfoldable pub multiboot_find_tag : ℕ → Memory → ℕ → ℕ → Option ℕ
multiboot_find_tag fuel m multiboot_info_address type =
    find_tag_loop fuel m type (add32 multiboot_info_address (read32 m multiboot_info_address))
      (add32 multiboot_info_address 8)
