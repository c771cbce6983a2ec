-- ===== src/Framebuffer/Tests.antt =====
-- Boot information with a framebuffer of 64 by 32 pixels, and the theorems on it.
use xenon_os.Base.{ℕ, ◌+◌, ◌-◌, ◌*◌, ◌^◌, ◌==◌, if◌then◌else◌, [], true, false}
use xenon_os.Memory.{Bytes, store32}
use xenon_os.Slab.Tests.{two_words}
use xenon_os.Framebuffer.{Framebuffer, Machine}

-- The boot information at 0x9000 has one tag, of 32 bytes.
abbrev boot_info : Bytes
boot_info =
    store32
      (store32
        (store32
          (store32 (store32 (store32 (store32 (λ a. 0) 0x9000 40) 0x9008 8) 0x900C 32) 0x9010
            0xFD000000)
          0x9018 256)
        0x901C 64)
      0x9020 32

abbrev with_type : ℕ → Bytes
with_type kind = store32 boot_info 0x9024 (32 + 256 * kind)

abbrev off : Bytes → Framebuffer
off m = record {
  info = record { addr = 0; pitch = 0; width = 0; height = 0; bpp = 0 };
  hw_addr = 0;
  initialized = false;
  heap = record {
    space = record {
      paging = record { pmm = two_words; page_directory = λ i. 2; frames = λ f i. 7; flushed = [] };
      memory = m;
    };
    next_large_vaddr = 0xC0000000;
  };
  dispi = [];
}

abbrev machine : Machine
machine = record { fuel = 1; caches = λ b. 0x1000 + 8 * b; dispi_id = 0; config = λ a. 2 ^ 32 - 1 }

abbrev shown : Framebuffer
shown = record (off (λ a. if a == 0xC0000008 then 200 else 0)) {
  info = record { addr = 0xC0000008; pitch = 256; width = 64; height = 32; bpp = 32 };
  hw_addr = 0xE0000000;
  initialized = true;
}
