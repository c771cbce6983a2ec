-- ===== src/Framebuffer.antt =====
-- src/io/framebuffer.c: the framebuffer of the boot loader or of the Bochs display adapter, its mapping and
-- the off-screen buffer. The memory is that of the kernel heap. The writes to the adapter are logged
-- as index and value, the newest first.
pub mod Range
pub mod Initialize
pub mod Present
mod Tests
use xenon_os.Base.{
  ℕ, zero, suc, ◌+◌, ◌*◌, ◌/◌, ◌%◌, ◌^◌, ◌==◌, ltb, ◌&&◌, ◌||◌, if◌then◌else◌, Bool, true, false,
  Option, none, some, List, [], ◌∷◌, add32, mul32,
}
use xenon_os.Memory.{Bytes, load32, memset, memcpy}
use xenon_os.Multiboot.{read32, read64, tag_framebuffer, multiboot_find_tag}
use xenon_os.Pmm.{page_size}
use xenon_os.Paging.{Paging, paging_map}
use xenon_os.Heap.{Heap, kmalloc}
use xenon_os.Pci.{Config, pci_find_vga_device, pci_get_bar_address}
use xenon_os.Graphics.{FramebufferInfo}
use mathlib.Core.Option

abbrev pub framebuffer_virtual_base : ℕ
framebuffer_virtual_base = 0xE0000000

abbrev pub framebuffer_virtual_size : ℕ
framebuffer_virtual_size = 0x00A00000

-- The registers of the adapter, and the values that enable it.
abbrev pub vbe_dispi_index_xres : ℕ
vbe_dispi_index_xres = 1

abbrev pub vbe_dispi_index_yres : ℕ
vbe_dispi_index_yres = 2

abbrev pub vbe_dispi_index_bpp : ℕ
vbe_dispi_index_bpp = 3

abbrev pub vbe_dispi_index_enable : ℕ
vbe_dispi_index_enable = 4

abbrev pub vbe_dispi_id_min : ℕ
vbe_dispi_id_min = 0xB0C0

abbrev pub vbe_dispi_id_max : ℕ
vbe_dispi_id_max = 0xB0C5

-- The static variables, the heap, and the log of the adapter.
pub record Framebuffer : Type 0 where
  pub info : FramebufferInfo
  pub hw_addr : ℕ
  pub initialized : Bool
  pub heap : Heap
  pub dispi : List (ℕ × ℕ)

-- What the functions are called with: the fuel and the caches of kmalloc, the id that the adapter
-- answers, and the PCI configuration space.
pub record Machine : Type 0 where
  pub fuel : ℕ
  pub caches : ℕ → ℕ
  pub dispi_id : ℕ
  pub config : Config

abbrev pub dispi_write : ℕ → ℕ → Framebuffer → Framebuffer
dispi_write index value s = record s { dispi = (index, value) ∷ s.dispi }

-- The loop of map_framebuffer, by the rounds left: there are at most 2560 pages.
unfoldable pub map_range : ℕ → ℕ → ℕ → ℕ → Paging → Paging
map_range zero offset size physical_addr s = s
map_range (suc left) offset size physical_addr s =
    let rest =
      map_range left (offset + page_size) size physical_addr
        (paging_map (framebuffer_virtual_base + offset) (add32 physical_addr offset) 3 s) in
    if ltb offset size && ltb offset framebuffer_virtual_size then rest else s

-- `memset((void *)info.addr, 0, size)` and the fields of `info`, after kmalloc.
pub clear_buffer : ℕ → FramebufferInfo → Framebuffer → ℕ × Heap → Framebuffer
clear_buffer size info s (addr, heap) = record s {
  hw_addr = framebuffer_virtual_base;
  info = record info { addr = addr };
  heap = record heap {
    space = record heap.space { memory = memset addr 0 size heap.space.memory };
  };
}

-- The geometry comes as a FramebufferInfo whose `addr` is the physical address. `none` is a kmalloc
-- that has not ended.
pub map_framebuffer : Machine → FramebufferInfo → Framebuffer → Option Framebuffer
map_framebuffer machine info s =
    let size = mul32 info.pitch info.height in
    let mapped = map_range 2560 0 size info.addr s.heap.space.paging in
    let heap = record s.heap { space = record s.heap.space { paging = mapped } } in
    Option.map (clear_buffer size info s) (kmalloc machine.fuel machine.caches size heap)

-- struct multiboot_tag_framebuffer at an address; MULTIBOOT_FRAMEBUFFER_TYPE_RGB is 1.
abbrev pub tag_info : Bytes → ℕ → FramebufferInfo
tag_info m tag = record {
  addr = read32 m (tag + 8);
  pitch = read32 m (tag + 16);
  width = read32 m (tag + 20);
  height = read32 m (tag + 24);
  bpp = m (tag + 28);
}

-- The tests of try_grub_framebuffer.
pub usable_tag : Bytes → ℕ → Bool
usable_tag m tag =
    if tag == 0
    then false
    else if m (tag + 29) == 1
    then (if read64 m (tag + 8) == 0
        then false
        else if read32 m (tag + 20) == 0
        then false
        else if read32 m (tag + 24) == 0
        then false
        else true)
    else false

-- `tag` is what multiboot_find_tag returns.
pub try_grub_framebuffer : Machine → ℕ → Framebuffer → Option (Bool × Framebuffer)
try_grub_framebuffer machine tag s =
    let m = s.heap.space.memory in
    if usable_tag m tag
    then Option.map (λ s'. (true, s')) (map_framebuffer machine (tag_info m tag) s)
    else some (false, s)

-- try_bochs_dispi from pci_get_bar_address on.
pub set_mode : Machine → ℕ → ℕ → ℕ → ℕ × ℕ → Framebuffer → Option Framebuffer
set_mode machine width height bpp (bus, device) s =
    map_framebuffer machine
      (record {
        addr = pci_get_bar_address machine.config bus device 0 0;
        pitch = mul32 width (bpp / 8);
        width = width;
        height = height;
        bpp = bpp;
      })
      (dispi_write vbe_dispi_index_enable 0x41 (
        dispi_write vbe_dispi_index_bpp bpp (
          dispi_write vbe_dispi_index_yres (height % 2 ^ 16) (
            dispi_write vbe_dispi_index_xres (width % 2 ^ 16)
              (dispi_write vbe_dispi_index_enable 0 s)))))

pub is_bochs : ℕ → Bool
is_bochs id =
    if ltb id vbe_dispi_id_min then false else if ltb vbe_dispi_id_max id then false else true

pub try_bochs_dispi : Machine → ℕ → ℕ → ℕ → Framebuffer → Option (Bool × Framebuffer)
try_bochs_dispi machine width height bpp s =
    if is_bochs machine.dispi_id
    then elim (pci_find_vga_device machine.config) [
      | none ↦ some (false, s)
      | some found ↦ Option.map (λ s'. (true, s')) (set_mode machine width height bpp found s)
    ]
    else some (false, s)

-- framebuffer_initialize after try_grub_framebuffer.
pub or_bochs : Machine → ℕ → ℕ → ℕ → Bool × Framebuffer → Option (Bool × Framebuffer)
or_bochs machine width height bpp (found, s) =
    Option.map (λ r. let (ok, s') = r in (ok, if ok then record s' { initialized = true } else s'))
      (if found then some (true, s) else try_bochs_dispi machine width height bpp s)

-- `tag_fuel` is that of multiboot_find_tag.
pub framebuffer_initialize : Machine → ℕ → ℕ → ℕ → ℕ → ℕ → Framebuffer → Option (Bool × Framebuffer)
framebuffer_initialize machine tag_fuel multiboot_info_address width height bpp s =
    if s.initialized
    then some (true, s)
    else Option.bind
        (multiboot_find_tag tag_fuel s.heap.space.memory multiboot_info_address tag_framebuffer)
        λ tag. Option.bind (try_grub_framebuffer machine tag s) (or_bochs machine width height bpp)

pub framebuffer_present : Framebuffer → Framebuffer
framebuffer_present s =
    if s.initialized
    then record s {
      heap = record s.heap {
        space = record s.heap.space {
          memory =
              memcpy s.hw_addr s.info.addr (mul32 s.info.pitch s.info.height) s.heap.space.memory;
        };
      };
    }
    else s
