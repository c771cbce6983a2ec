-- ===== src/Framebuffer/Initialize.antt =====
-- framebuffer_initialize: how it fails, and the buffer that it leaves.
use xenon_os.Base.{
  ℕ, ◌+◌, ◌*◌, ◌<◌, ◌≤◌, ◌≡◌, ◌%◌, ◌⊎◌, inl, inr, refl, false, none, some, arith, Bool-cases, mul32,
}
use xenon_os.Multiboot.{multiboot_find_tag, tag_framebuffer}
use xenon_os.Paging.{Paging}
use xenon_os.Paging.Mmu.{IsValid}
use xenon_os.Paging.Backed.{Backed, NoFrame}
use xenon_os.Pci.{pci_find_vga_device}
use xenon_os.Heap.{Heap, large_alloc_region_end}
use xenon_os.Graphics.{FramebufferInfo}
use xenon_os.Graphics.Pixels.{IsBuffer}
use xenon_os.Framebuffer.{
  Framebuffer, Machine, map_range, usable_tag, try_grub_framebuffer, try_bochs_dispi, is_bochs,
  or_bochs, framebuffer_initialize, framebuffer_virtual_base, framebuffer_virtual_size,
}
use xenon_os.Framebuffer.Range.{Shows}
use mathlib.Core.Option

-- Without a tag that can be used, and without the adapter or a VGA controller,
-- framebuffer_initialize reports that there is no framebuffer and changes nothing.
pub framebuffer_initialize_fails :
    (machine : Machine) (tag_fuel multiboot_info_address width height bpp tag : ℕ) (s : Framebuffer)
    → s.initialized ≡ false
    → multiboot_find_tag tag_fuel s.heap.space.memory multiboot_info_address tag_framebuffer
      ≡ some tag
    → usable_tag s.heap.space.memory tag ≡ false
    → (is_bochs machine.dispi_id ≡ false) ⊎ (pci_find_vga_device machine.config ≡ none)
    → framebuffer_initialize machine tag_fuel multiboot_info_address width height bpp s
      ≡ some (false, s)
unfolding framebuffer_initialize try_grub_framebuffer or_bochs try_bochs_dispi Option.bind
framebuffer_initialize_fails machine tag_fuel multiboot_info_address width height bpp tag s new
      found useless absent =
    elim (Bool-cases (is_bochs machine.dispi_id)) [
      | inr other ↦ rw new (rw found (rw useless (rw other refl)))
      | inl bochs ↦ elim absent [
        | inl other ↦ absurd (ground (arith, bochs, other))
        | inr no_device ↦ rw new (rw found (rw useless (rw bochs (rw no_device refl))))
      ]
    ]

-- The off-screen buffer lies in a block that kmalloc has granted between the old and the new
-- next_large_vaddr, whose pages have got frames since the state `before`. Drawing is safe on it, and it is
-- all black.
pub record Granted (before : Paging) (old : Heap) (s : Framebuffer) : Type 0 where
  pub starts : s.info.addr ≡ old.next_large_vaddr + 8
  pub fits : s.info.addr + s.info.height * s.info.pitch ≤ s.heap.next_large_vaddr
  pub inside : s.heap.next_large_vaddr ≤ large_alloc_region_end
  pub pages : ℕ
  pub block : s.heap.next_large_vaddr ≡ old.next_large_vaddr + pages * 4096
  pub backed : Backed pages 0 old.next_large_vaddr before s.heap.space.paging
  pub drawable : IsBuffer s.info
  pub black :
      (a : ℕ)
      → s.info.addr ≤ a
      → a < s.info.addr + s.info.height * s.info.pitch
      → s.heap.space.memory a ≡ 0

-- The state after map_framebuffer, for a geometry whose `addr` is the physical address.
pub record Ready (info : FramebufferInfo) (old : Heap) (s : Framebuffer) : Type 0 where
  pub pitch : s.info.pitch ≡ info.pitch
  pub width : s.info.width ≡ info.width
  pub height : s.info.height ≡ info.height
  pub hardware : s.hw_addr ≡ framebuffer_virtual_base
  pub shown :
      (k : ℕ)
      → k * 4096 < info.pitch * info.height
      → k * 4096 < framebuffer_virtual_size
      → Shows info.addr k s.heap.space.paging
  pub buffer :
      ((s.info.addr ≡ 0)
        × ((large_alloc_region_end < old.next_large_vaddr + info.pitch * info.height + 4104)
            ⊎ NoFrame s.heap.space.paging.pmm))
      ⊎ Granted (map_range 2560 0 (mul32 info.pitch info.height) info.addr old.space.paging) old s

module _ (machine : Machine) (info : FramebufferInfo) (s : Framebuffer)
    (rows : 4 * info.width ≤ info.pitch) (big : 2048 < info.pitch * info.height)
    (small : info.pitch * info.height + 4104 ≤ 0x30000000)
    (low : s.heap.next_large_vaddr ≤ large_alloc_region_end)
    (aligned : s.heap.next_large_vaddr % 4096 ≡ 0) (v : IsValid s.heap.space.paging) where
  abbrev size : ℕ
  size = mul32 info.pitch info.height

  -- The heap once the hardware is mapped.
  abbrev heap : Heap
  heap = record s.heap {
    space = record s.heap.space { paging = map_range 2560 0 size info.addr s.heap.space.paging };
  }
