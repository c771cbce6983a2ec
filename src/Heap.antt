-- ===== src/Heap.antt =====
-- src/memory/heap.c: blocks of up to 2048 bytes from eight caches, and larger ones from pages of a
-- region of their own. `caches` gives the address of the cache kmalloc_cache_N for each N.
pub mod Release
pub mod Large
pub mod Init
pub mod Dispatch
mod Tests
use xenon_os.Base.{
  ℕ, zero, suc, ◌+◌, ◌-◌, ◌*◌, ◌/◌, ◌==◌, ltb, leb, if◌then◌else◌, Option, none, some, Bool, true,
  false, bit_and, add32, mul32,
}
use xenon_os.Pmm.{pmm_alloc, no_frame, page_size}
use xenon_os.Paging.{Paging, paging_map}
use xenon_os.Paging.Release.{release_page}
use xenon_os.Slab.{AddressSpace, store, load, cache_of, slab_cache_init, slab_alloc, slab_free}
use mathlib.Core.Option

abbrev pub large_alloc_magic : ℕ
large_alloc_magic = 0x4C524745

abbrev pub large_alloc_region_base : ℕ
large_alloc_region_base = 0xC0000000

abbrev pub large_alloc_region_end : ℕ
large_alloc_region_end = 0xD0000000

-- sizeof(large_header_t): the magic number, and the page count at offset 4.
abbrev pub large_header_size : ℕ
large_header_size = 8

pub record Heap : Type 0 where
  pub space : AddressSpace
  pub next_large_vaddr : ℕ

pub heap_initialize : (ℕ → ℕ) → AddressSpace → AddressSpace
heap_initialize caches s = slab_cache_init (caches 2048) 2048 (
    slab_cache_init (caches 1024) 1024 (
      slab_cache_init (caches 512) 512 (
        slab_cache_init (caches 256) 256 (
          slab_cache_init (caches 128) 128 (
            slab_cache_init (caches 64) 64
              (slab_cache_init (caches 32) 32 (slab_cache_init (caches 16) 16 s)))))))

-- The loop of kmalloc_large, by the rounds left; false is its early return.
pub map_pages : ℕ → ℕ → ℕ → Paging → Bool × Paging
map_pages zero i vbase s = (true, s)
map_pages (suc left) i vbase s =
    let (frame, pmm') = pmm_alloc s.pmm in
    let s' = record s { pmm = pmm' } in
    let rest =
      map_pages left (i + 1) vbase (paging_map (add32 vbase (mul32 i page_size)) frame 3 s') in
    if frame == no_frame then (false, s') else rest

-- `pages` in kmalloc_large.
unfoldable pub pages_for : ℕ → ℕ
pages_for size = add32 (add32 size large_header_size) (page_size - 1) / page_size

pub kmalloc_large : ℕ → Heap → ℕ × Heap
kmalloc_large size h =
    let pages = pages_for size in
    let vbase = h.next_large_vaddr in
    let next = add32 vbase (mul32 pages page_size) in
    let (ok, paging) = map_pages pages 0 vbase h.space.paging in
    let mapped : Heap = record {
      space = record h.space { paging = paging };
      next_large_vaddr = next;
    } in
    if ltb large_alloc_region_end next
    then (0, h)
    else if ok
    then (
      add32 vbase large_header_size,
      record mapped {
        space = store (vbase + 4) pages (store vbase large_alloc_magic mapped.space);
      },
    )
    else (0, mapped)

-- The loop of kfree_large, by the rounds left.
unfoldable pub release_pages : ℕ → ℕ → ℕ → Paging → Paging
release_pages zero i vbase s = s
release_pages (suc left) i vbase s =
    release_pages left (i + 1) vbase (release_page (add32 vbase (mul32 i page_size)) s)

pub kfree_large : ℕ → AddressSpace → AddressSpace
kfree_large vbase s = record s { paging = release_pages (load (vbase + 4) s) 0 vbase s.paging }

-- slab_alloc on one of the caches.
pub kmalloc_small : ℕ → ℕ → Heap → Option (ℕ × Heap)
kmalloc_small fuel cache h =
    Option.map (λ r. let (object, s) = r in (object, record h { space = s }))
      (slab_alloc fuel cache h.space)

-- `fuel` is that of slab_alloc.
pub kmalloc : ℕ → (ℕ → ℕ) → ℕ → Heap → Option (ℕ × Heap)
kmalloc fuel caches size h =
    if leb size 16
    then kmalloc_small fuel (caches 16) h
    else if leb size 32
    then kmalloc_small fuel (caches 32) h
    else if leb size 64
    then kmalloc_small fuel (caches 64) h
    else if leb size 128
    then kmalloc_small fuel (caches 128) h
    else if leb size 256
    then kmalloc_small fuel (caches 256) h
    else if leb size 512
    then kmalloc_small fuel (caches 512) h
    else if leb size 1024
    then kmalloc_small fuel (caches 1024) h
    else if leb size 2048
    then kmalloc_small fuel (caches 2048) h
    else some (kmalloc_large size h)

-- `fuel` is that of slab_free.
pub kfree : ℕ → ℕ → Heap → Option Heap
kfree fuel ptr h =
    let page = bit_and ptr 0xFFFFF000 in
    let tag = load page h.space in
    let freed = slab_free fuel (load (cache_of page) h.space) ptr h.space in
    if ptr == 0
    then some h
    else if tag == large_alloc_magic
    then some (record h { space = kfree_large page h.space })
    else Option.map (λ s. record h { space = s }) freed
