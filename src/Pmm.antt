-- ===== src/Pmm.antt =====
-- src/memory/pmm.c: the physical frame allocator, one bit for each 4 KB frame (1 = used).
-- The bitmap is a function of the word index; `Pmm.Bounds` shows that every index is in range.
pub mod Frames
pub mod Alloc
pub mod Count
pub mod Bounds
pub mod Initialize
pub mod Tests
use xenon_os.Base.{
  ℕ, zero, suc, ◌+◌, ◌-◌, ◌*◌, ◌/◌, ◌%◌, ◌^◌, Option, none, some, true, false, ltb, ◌==◌,
  if◌then◌else◌, Bool, bit_and, add32, sub32, bit_or, update, add64, mul32,
}
use xenon_os.Base.Bits.{complement}
use xenon_os.Multiboot.{Memory, read32, read64, tag_size, tag_mmap, multiboot_find_tag}
use Prim.Native.Nat.{min}
use mathlib.Core.Option

abbrev pub page_size : ℕ
page_size = 4096

-- BITMAP_SIZE, MAX_MEMORY / PAGE_SIZE / 32
abbrev pub bitmap_size : ℕ
bitmap_size = 2 ^ 15

-- FRAME_COUNT, BITMAP_SIZE * 32
abbrev pub frame_count : ℕ
frame_count = 2 ^ 20

-- 0xFFFFFFFF as a bitmap word
abbrev pub full_word : ℕ
full_word = 2 ^ 32 - 1

-- (uint32_t)-1
abbrev pub no_frame : ℕ
no_frame = 2 ^ 32 - 1

-- The static variables of pmm.c.
pub record Pmm : Type 0 where
  pub bitmap : ℕ → ℕ
  pub search_hint : ℕ

pub set_frame : ℕ → Pmm → Pmm
set_frame frame p = record p {
  bitmap = update p.bitmap (frame / 32) (bit_or (p.bitmap (frame / 32)) (2 ^ (frame % 32)));
}

pub clear_frame : ℕ → Pmm → Pmm
clear_frame frame p = record p {
  bitmap =
      update p.bitmap (frame / 32)
        (bit_and (p.bitmap (frame / 32)) (complement 32 (2 ^ (frame % 32))));
}

pub test_frame : ℕ → Pmm → ℕ
test_frame frame p = bit_and (p.bitmap (frame / 32)) (2 ^ (frame % 32))

-- `__builtin_ctz`, the number of zero bits below the lowest one, in a word of the given width.
pub ctz : ℕ → ℕ → ℕ
ctz zero w = 0
ctz (suc width) w = let rest = suc (ctz width (w / 2)) in if w % 2 == 1 then 0 else rest

-- The loop `for (i = …; i < …; i++) if (bitmap[i] != 0xFFFFFFFF)`, by the rounds left.
pub scan : (ℕ → ℕ) → ℕ → ℕ → Option ℕ
scan bitmap zero i = none
scan bitmap (suc left) i = elim (bitmap i == full_word) [
  | true ↦ scan bitmap left (i + 1)
  | false ↦ some i
]

-- The frame that word `i` yields.
abbrev pub free_in_word : Pmm → ℕ → ℕ
free_in_word p i = i * 32 + ctz 32 (complement 32 (p.bitmap i))

pub first_free_frame : Pmm → ℕ × Pmm
first_free_frame p = elim (scan p.bitmap (bitmap_size - p.search_hint) p.search_hint) [
  | some i ↦ (free_in_word p i, record p { search_hint = i })
  | none ↦ elim (scan p.bitmap p.search_hint 0) [
    | some i ↦ (free_in_word p i, record p { search_hint = i })
    | none ↦ (no_frame, p)
  ]
]

-- The loop `for (frame = first; …; frame++) clear_frame(frame)`, by the rounds left.
pub clear_frames : ℕ → ℕ → Pmm → Pmm
clear_frames zero frame p = p
clear_frames (suc left) frame p = clear_frames left (frame + 1) (clear_frame frame p)

pub set_frames : ℕ → ℕ → Pmm → Pmm
set_frames zero frame p = p
set_frames (suc left) frame p = set_frames left (frame + 1) (set_frame frame p)

-- `uint64_t` sums; the loop runs while `frame < last && frame < FRAME_COUNT`.
pub free_region : ℕ → ℕ → Pmm → Pmm
free_region base size p =
    let first = add64 base (page_size - 1) / page_size in
    let last = add64 base size / page_size in clear_frames (min last frame_count - first) first p

pub reserve_region : ℕ → ℕ → Pmm → Pmm
reserve_region base size p =
    let first = base / page_size in
    let last = add64 base (size + page_size - 1) / page_size in
    set_frames (min last frame_count - first) first p

pub pmm_alloc : Pmm → ℕ × Pmm
pmm_alloc p =
    let (frame, p') = first_free_frame p in
    if frame == no_frame then (no_frame, p') else (mul32 frame page_size, set_frame frame p')

pub pmm_free : ℕ → Pmm → Pmm
pmm_free address p =
    let frame = address / page_size in
    let p' = clear_frame frame p in
    if ltb (frame / 32) p'.search_hint then record p' { search_hint = frame / 32 } else p'

-- Step 1 of pmm_initialize: the loop `bitmap[i] = 0xFFFFFFFF`, by the rounds left.
pub fill_words : ℕ → ℕ → Pmm → Pmm
fill_words zero i p = p
fill_words (suc left) i p =
    fill_words left (i + 1) (record p { bitmap = update p.bitmap i full_word })

-- struct multiboot_mmap_entry at an address; MMAP_TYPE_AVAILABLE is 1.
abbrev pub entry_addr : Memory → ℕ → ℕ
entry_addr m entry = read64 m entry

abbrev pub entry_len : Memory → ℕ → ℕ
entry_len m entry = read64 m (entry + 8)

unfoldable pub entry_available : Memory → ℕ → Bool
entry_available m entry = read32 m (entry + 16) == 1

pub free_entry : Memory → ℕ → Pmm → Pmm
free_entry m entry p =
    if entry_available m entry then free_region (entry_addr m entry) (entry_len m entry) p else p

-- Step 2: the loop `while (entry_ptr < end)`, with fuel: `none` is a walk that has not ended.
pub free_entries : ℕ → Memory → ℕ → ℕ → ℕ → Pmm → Option Pmm
free_entries zero m entry_size end entry p = none
free_entries (suc fuel) m entry_size end entry p =
    let rest = free_entries fuel m entry_size end (add32 entry entry_size) (free_entry m entry p) in
    if ltb entry end then rest else some p

-- struct multiboot_tag_mmap has 16 bytes, with entry_size at offset 8. A tag at 0 is NULL.
pub free_available : ℕ → Memory → ℕ → Pmm → Option Pmm
free_available fuel m mmap_tag p =
    if mmap_tag == 0
    then some p
    else free_entries fuel m (read32 m (mmap_tag + 8)) (add32 mmap_tag (tag_size m mmap_tag))
        (add32 mmap_tag 16) p

-- Step 3, with the linker's symbols kernel_start and kernel_end as arguments.
pub reserve_kernel : ℕ → ℕ → Pmm → Pmm
reserve_kernel kstart kend p =
    reserve_region kstart (sub32 kend kstart) (reserve_region 0 0x100000 p)

pub pmm_initialize : ℕ → Memory → ℕ → ℕ → ℕ → Pmm → Option Pmm
pmm_initialize fuel m multiboot_info_address kstart kend p =
    Option.bind (multiboot_find_tag fuel m multiboot_info_address tag_mmap) λ mmap_tag.
      Option.map (reserve_kernel kstart kend)
        (free_available fuel m mmap_tag (fill_words bitmap_size 0 p))
