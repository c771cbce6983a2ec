-- ===== src/Slab.antt =====
-- src/memory/slab.c: caches of equal objects in page-sized slabs. `memory` is the memory as the kernel
-- addresses it: a slab lies in a page that is mapped to itself. The headers, the caches and the links
-- of the free lists, which lie in the free objects, are 32-bit words of it.
pub mod Layout
pub mod Objects
pub mod Fill
pub mod Chain
pub mod Unlink
pub mod Invariant
pub mod Search
pub mod Grow
pub mod Alloc
pub mod Tables
pub mod Free
pub mod Init
pub mod Tests
use xenon_os.Base.{
  ℕ, zero, suc, ◌+◌, ◌-◌, ◌*◌, ◌/◌, ◌==◌, ltb, if◌then◌else◌, Option, none, some, bit_and, add32,
  sub32,
}
use xenon_os.Memory.{Bytes, store32, load32}
use xenon_os.Pmm.{pmm_alloc, pmm_free, no_frame, page_size}
use xenon_os.Paging.{Paging, paging_map}
use mathlib.Core.Option

pub record AddressSpace : Type 0 where
  pub paging : Paging
  pub memory : Bytes

abbrev pub store : ℕ → ℕ → AddressSpace → AddressSpace
store address word s = record s { memory = store32 s.memory address word }

abbrev pub load : ℕ → AddressSpace → ℕ
load address s = load32 s.memory address

-- sizeof(slab_t)
abbrev pub slab_size : ℕ
slab_size = 20

-- The fields of slab_t: `next` is the first word.
abbrev pub cache_of : ℕ → ℕ
cache_of slab = slab + 4

abbrev pub free_list : ℕ → ℕ
free_list slab = slab + 8

abbrev pub free_count : ℕ → ℕ
free_count slab = slab + 12

abbrev pub capacity : ℕ → ℕ
capacity slab = slab + 16

-- The field `slabs` of slab_cache_t: `object_size` is the first word.
abbrev pub slabs : ℕ → ℕ
slabs cache = cache + 4

unfoldable pub slab_cache_init : ℕ → ℕ → AddressSpace → AddressSpace
slab_cache_init cache object_size s =
    let size = if ltb object_size 4 then 4 else object_size in
    store (slabs cache) 0 (store cache size s)

-- `*(void **)object = slab->free_list; slab->free_list = object; slab->free_count++`
pub push_free : ℕ → ℕ → AddressSpace → AddressSpace
push_free slab object s =
    let linked = store (free_list slab) object (store object (load (free_list slab) s) s) in
    store (free_count slab) (add32 (load (free_count slab) linked) 1) linked

-- The loop of slab_create, by the rounds left.
pub link_objects : ℕ → ℕ → ℕ → ℕ → AddressSpace → AddressSpace
link_objects zero i slab cache s = s
link_objects (suc left) i slab cache s =
    link_objects left (i + 1) slab cache (push_free slab (slab + slab_size + i * load cache s) s)

-- The header before the loop.
pub blank_header : ℕ → ℕ → AddressSpace → AddressSpace
blank_header slab cache s =
    store (free_count slab) 0
      (store (free_list slab) 0 (store (cache_of slab) cache (store slab 0 s)))

-- slab_create, from the frame on.
pub fill_slab : ℕ → ℕ → AddressSpace → AddressSpace
fill_slab frame cache s =
    let blank = blank_header frame cache s in
    let count = (page_size - slab_size) / load cache blank in
    store (capacity frame) count (link_objects count 0 frame cache blank)

-- `paging_map(frame, frame, 3)`, on the allocator's new state.
abbrev pub map_frame : ℕ → AddressSpace → AddressSpace
map_frame frame s = record s {
  paging = paging_map frame frame 3 (record s.paging { pmm = (pmm_alloc s.paging.pmm).1 });
}

pub slab_create : ℕ → AddressSpace → ℕ × AddressSpace
slab_create cache s =
    let frame = (pmm_alloc s.paging.pmm).0 in
    if frame == no_frame
    then (0, record s { paging = record s.paging { pmm = (pmm_alloc s.paging.pmm).1 } })
    else (frame, fill_slab frame cache (map_frame frame s))

pub slab_take : ℕ → AddressSpace → ℕ × AddressSpace
slab_take slab s =
    let object = load (free_list slab) s in
    let shorter = store (free_list slab) (load object s) s in
    (object, store (free_count slab) (sub32 (load (free_count slab) shorter) 1) shorter)

-- The loop of slab_alloc, with fuel: the first slab that has a free object, or 0; `none` is a walk
-- that has not ended.
pub find_slab : ℕ → ℕ → AddressSpace → Option ℕ
find_slab zero slab s = none
find_slab (suc fuel) slab s =
    let rest = find_slab fuel (load slab s) s in
    if slab == 0 then some 0 else if ltb 0 (load (free_count slab) s) then some slab else rest

-- slab_alloc after the loop has found no slab.
pub grow : ℕ → AddressSpace → ℕ × AddressSpace
grow cache s =
    let (slab, s') = slab_create cache s in
    if slab == 0
    then (0, s')
    else slab_take slab (store (slabs cache) slab (store slab (load (slabs cache) s') s'))

pub slab_alloc : ℕ → ℕ → AddressSpace → Option (ℕ × AddressSpace)
slab_alloc fuel cache s =
    Option.map (λ slab. if slab == 0 then grow cache s else slab_take slab s)
      (find_slab fuel (load (slabs cache) s) s)

-- The loop `while (*link != slab)`, with fuel: the address of the pointer to the slab. The field
-- `next` is the first word of a slab.
pub find_link : ℕ → ℕ → ℕ → AddressSpace → Option ℕ
find_link zero link slab s = none
find_link (suc fuel) link slab s =
    let rest = find_link fuel (load link s) slab s in
    if load link s == slab then some link else rest

-- The end of slab_free, for a slab that is empty.
pub release : ℕ → ℕ → ℕ → AddressSpace → Option AddressSpace
release fuel cache slab s =
    Option.map
      (λ link.
        let unlinked = store link (load slab s) s in
        record unlinked {
          paging = record unlinked.paging { pmm = pmm_free slab unlinked.paging.pmm };
        })
      (find_link fuel (slabs cache) slab s)

pub slab_free : ℕ → ℕ → ℕ → AddressSpace → Option AddressSpace
slab_free fuel cache object s =
    let slab = bit_and object 0xFFFFF000 in
    let s' = push_free slab object s in
    let released = release fuel cache slab s' in
    if ltb (load (free_count slab) s') (load (capacity slab) s') then some s' else released
