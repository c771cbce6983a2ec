-- ===== src/Pci.antt =====
-- src/io/pci.c: the configuration space of the PCI bus. `config` is what the data port answers to the
-- address that was written to the address port.
pub mod Scan
mod Tests
use xenon_os.Base.{
  ℕ, zero, suc, ◌+◌, ◌*◌, ◌/◌, ◌%◌, ◌^◌, ◌==◌, ◌&&◌, Bool, true, false, if◌then◌else◌, Option, none,
  some, bit_and, bit_or,
}

abbrev pub Config : Type 0
Config = ℕ → ℕ

pub config_address : ℕ → ℕ → ℕ → ℕ → ℕ
config_address bus device function offset =
    bit_or (bit_or (bit_or (bit_or (2 ^ 31) (bus * 2 ^ 16)) (device * 2 ^ 11)) (function * 2 ^ 8))
      (bit_and offset 0xFC)

pub pci_config_read32 : Config → ℕ → ℕ → ℕ → ℕ → ℕ
pci_config_read32 config bus device function offset =
    config (config_address bus device function offset)

-- The body of the loops: whether the device is there, and is a VGA controller.
pub is_vga : Config → ℕ → ℕ → Bool
is_vga config b d =
    let id = pci_config_read32 config b d 0 0x00 in
    let class_reg = pci_config_read32 config b d 0 0x08 in
    let class_code = class_reg / 2 ^ 24 % 2 ^ 8 in
    let subclass = class_reg / 2 ^ 16 % 2 ^ 8 in
    if bit_and id 0xFFFF == 0xFFFF then false else class_code == 0x03 && subclass == 0x00

-- The inner loop over the devices, by the rounds left, and the outer one over the buses.
pub scan_devices : ℕ → ℕ → ℕ → Config → Option (ℕ × ℕ)
scan_devices zero d b config = none
scan_devices (suc left) d b config =
    let rest = scan_devices left (d + 1) b config in if is_vga config b d then some (b, d) else rest

pub scan_buses : ℕ → ℕ → Config → Option (ℕ × ℕ)
scan_buses zero b config = none
scan_buses (suc left) b config = elim (scan_devices 32 0 b config) [
  | some found ↦ some found
  | none ↦ scan_buses left (b + 1) config
]

-- The bus and the device that are found; the function is 0.
pub pci_find_vga_device : Config → Option (ℕ × ℕ)
pci_find_vga_device config = scan_buses 256 0 config

pub pci_get_bar_address : Config → ℕ → ℕ → ℕ → ℕ → ℕ
pci_get_bar_address config bus device function bar_index =
    bit_and (pci_config_read32 config bus device function ((0x10 + bar_index * 4) % 2 ^ 8))
      0xFFFFFFF0
