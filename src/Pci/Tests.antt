-- ===== src/Pci/Tests.antt =====
-- A bus with one VGA controller, and the theorem on the search for it.
use xenon_os.Base.{ℕ, ◌==◌, ◌≡◌, ◌<◌, ◌⊎◌, if◌then◌else◌, none, some}
use xenon_os.Pci.{Config, pci_find_vga_device}
use xenon_os.Pci.Scan.{Found, VgaAt, pci_find_vga_device_lem}

-- Device 2 of bus 0; no other device is there.
abbrev one_vga : Config
one_vga address =
    if address == 0x80001000
    then 0x11111234
    else if address == 0x80001008
    then 0x03000002
    else 0xFFFFFFFF

pci_find_vga_device_lem_example :
    ((pci_find_vga_device one_vga ≡ none) × ((b d : ℕ) → b < 256 → d < 32 → ¬ VgaAt one_vga b d))
    ⊎ ((bus : ℕ) × (device : ℕ) × (pci_find_vga_device one_vga ≡ some (bus, device))
        × Found one_vga bus device)
pci_find_vga_device_lem_example = pci_find_vga_device_lem one_vga
