-- ===== src/Pci/Scan.antt =====
-- The search for the VGA controller, and the addresses of the configuration space.
use xenon_os.Base.{
  ℕ, zero, suc, ◌+◌, ◌*◌, ◌/◌, ◌%◌, ◌^◌, ◌<◌, ◌≤◌, ◌≡◌, ◌≢◌, ◌⊎◌, refl, true, false, none, some,
  bit_and, bit_or, arith, ap, ◌∙◌, Bool-cases, Option-cases, inl, inr, subst, sym, ℕ_discrete,
}
use xenon_os.Base.Bits.{bit_or-add, bit_and_mask}
use xenon_os.Base.Masks.{bit_and-shifted}
use xenon_os.Pci.{
  pci_config_read32, Config, config_address, is_vga, scan_devices, scan_buses, pci_find_vga_device,
}

joined : (k q r x : ℕ) → x ≡ q * 2 ^ k → r < 2 ^ k → bit_or x r ≡ x + r
joined k q r x e lt =
    ap (λ (n : ℕ). bit_or n r) e ∙ bit_or-add k q r lt ∙ ap (λ (n : ℕ). n + r) (sym e)

-- The fields of a configuration address lie side by side.
pub config_address-sum :
    (bus device function offset : ℕ)
    → bus < 2 ^ 8
    → device < 2 ^ 5
    → function < 2 ^ 3
    → offset < 2 ^ 8
    → config_address bus device function offset
      ≡ 2 ^ 31 + bus * 2 ^ 16 + device * 2 ^ 11 + function * 2 ^ 8 + offset / 4 * 4
unfolding config_address
config_address-sum bus device function offset b d f o =
    let split : offset ≡ offset / 4 * 2 ^ 2 + offset % 4 = omega arith in
    let low : bit_and offset 0xFC ≡ offset / 4 * 4 =
      ap (λ (n : ℕ). bit_and n 0xFC) split
      ∙ bit_and-shifted 2 (offset / 4) (offset % 4) 63 (omega arith)
      ∙ omega (arith, bit_and_mask 6 (offset / 4)) in
    let first : bit_or (2 ^ 31) (bus * 2 ^ 16) ≡ 2 ^ 31 + bus * 2 ^ 16 =
      joined 31 1 (bus * 2 ^ 16) (2 ^ 31) (omega arith) (omega arith) in
    let second =
      joined 16 (2 ^ 15 + bus) (device * 2 ^ 11) (2 ^ 31 + bus * 2 ^ 16) (omega arith)
        (omega arith) in
    let third =
      joined 11 (2 ^ 20 + bus * 2 ^ 5 + device) (function * 2 ^ 8)
        (2 ^ 31 + bus * 2 ^ 16 + device * 2 ^ 11) (omega arith) (omega arith) in
    let fourth =
      joined 8 (2 ^ 23 + bus * 2 ^ 8 + device * 2 ^ 3 + function) (offset / 4 * 4)
        (2 ^ 31 + bus * 2 ^ 16 + device * 2 ^ 11 + function * 2 ^ 8) (omega arith) (omega arith) in
    ap
      (λ (n : ℕ).
        bit_or (bit_or (bit_or n (device * 2 ^ 11)) (function * 2 ^ 8)) (bit_and offset 0xFC))
      first
    ∙ ap (λ (n : ℕ). bit_or (bit_or n (function * 2 ^ 8)) (bit_and offset 0xFC)) second
    ∙ ap (λ (n : ℕ). bit_or n (bit_and offset 0xFC)) third
    ∙ ap (λ (n : ℕ). bit_or (2 ^ 31 + bus * 2 ^ 16 + device * 2 ^ 11 + function * 2 ^ 8) n) low
    ∙ fourth

-- The first device of a bus, from the device `d` on.
scan_devices-some :
    (left d b : ℕ) (config : Config) (found : ℕ × ℕ)
    → scan_devices left d b config ≡ some found
    → (found.0 ≡ b)
      × (d ≤ found.1)
      × (found.1 < d + left)
      × (is_vga config b found.1 ≡ true)
      × ((e : ℕ) → d ≤ e → e < found.1 → is_vga config b e ≡ false)
unfolding scan_devices
scan_devices-some zero d b config found h = cc
scan_devices-some (suc left) d b config found h = elim (Bool-cases (is_vga config b d)) [
  | inl here ↦
      let same : found ≡ (b, d) = ground (arith, h, here) in
      subst
        (λ (r : ℕ × ℕ).
          (r.0 ≡ b)
          × (d ≤ r.1)
          × (r.1 < d + suc left)
          × (is_vga config b r.1 ≡ true)
          × ((e : ℕ) → d ≤ e → e < r.1 → is_vga config b e ≡ false))
        (sym same) (refl, omega arith, omega arith, here, λ e p q. absurd (omega arith))
  | inr other ↦
      let rest = scan_devices-some left (d + 1) b config found (ground (arith, h, other)) in
      (
        rest.0,
        omega (arith, rest.1),
        omega (arith, rest.2),
        rest.3,
        λ e p q. elim (ℕ_discrete e d) [
          | yes now ↦ ap (is_vga config b) now ∙ other
          | no later ↦ rest.4 e (omega (arith, later)) q
        ],
      )
]

scan_devices-none :
    (left d b : ℕ) (config : Config)
    → scan_devices left d b config ≡ none
    → (e : ℕ) → d ≤ e
    → e < d + left
    → is_vga config b e ≡ false
unfolding scan_devices
scan_devices-none zero d b config h e low high = absurd (omega arith)
scan_devices-none (suc left) d b config h e low high = elim (Bool-cases (is_vga config b d)) [
  | inl here ↦ absurd (ground (arith, h, here))
  | inr other ↦ elim (ℕ_discrete e d) [
    | yes now ↦ ap (is_vga config b) now ∙ other
    | no later ↦
        scan_devices-none left (d + 1) b config (ground (arith, h, other)) e (omega (arith, later))
          (omega arith)
  ]
]

-- The first of all devices, from the bus `b` on.
abbrev First : ℕ → Config → ℕ × ℕ → Type 0
First b config found =
    (b ≤ found.0)
    × (found.0 < 256)
    × (found.1 < 32)
    × (is_vga config found.0 found.1 ≡ true)
    × ((c e : ℕ)
        → b ≤ c
        → e < 32
        → (c < found.0) ⊎ ((c ≡ found.0) × (e < found.1))
        → is_vga config c e ≡ false)

abbrev Empty : ℕ → ℕ → Config → Type 0
Empty left b config = (c e : ℕ) → b ≤ c → c < b + left → e < 32 → is_vga config c e ≡ false

scan_buses-cases :
    (left b : ℕ) (config : Config)
    → b + left ≡ 256
    → ((scan_buses left b config ≡ none) × Empty left b config)
      ⊎ ((found : ℕ × ℕ) × (scan_buses left b config ≡ some found) × First b config found)
unfolding scan_buses
scan_buses-cases zero b config total = inl (refl, λ c e p q r. absurd (omega arith))
scan_buses-cases (suc left) b config total = elim (Option-cases (scan_devices 32 0 b config)) [
  | inr (found, e) ↦
      let here = scan_devices-some 32 0 b config found e in
      inr (
        found,
        rw (e, scan_buses) refl,
        (
          omega (arith, here.0),
          omega (arith, here.0),
          omega (arith, here.2),
          ap (λ (c : ℕ). is_vga config c found.1) here.0 ∙ here.3,
          λ c d p q before.
              let same : c ≡ b = omega (arith, before, here.0) in
              ap (λ (n : ℕ). is_vga config n d) same
              ∙ here.4 d (omega arith) (omega (arith, before, here.0)),
        ),
      )
  | inl e ↦
      let bus = scan_devices-none 32 0 b config e in
      let skipped = λ (c d : ℕ) (same : c ≡ b) (q : d < 32).
        ap (λ (n : ℕ). is_vga config n d) same ∙ bus d (omega arith) q in
      elim (scan_buses-cases left (b + 1) config (omega arith)) [
        | inl (failed, absent) ↦ inl (
          rw (e, scan_buses) failed,
          λ c d p q r. elim (ℕ_discrete c b) [
            | yes now ↦ skipped c d now r
            | no later ↦ absent c d (omega (arith, later)) (omega arith) r
          ],
        )
        | inr (found, done, (low, high, device, vga, first)) ↦ inr (
          found,
          rw (e, scan_buses) done,
          (
            omega arith,
            high,
            device,
            vga,
            λ c d p q before. elim (ℕ_discrete c b) [
              | yes now ↦ skipped c d now q
              | no later ↦ first c d (omega (arith, later)) q before
            ],
          ),
        )
      ]
]

-- The function 0 of a device is a VGA controller: its vendor is not that of an empty slot, and the
-- upper half of its class register is the class 3 and the subclass 0.
abbrev pub VgaAt : Config → ℕ → ℕ → Type 0
VgaAt config b d =
    (config (2 ^ 31 + b * 2 ^ 16 + d * 2 ^ 11) % 2 ^ 16 ≢ 0xFFFF)
    × (config (2 ^ 31 + b * 2 ^ 16 + d * 2 ^ 11 + 8) / 2 ^ 16 % 2 ^ 16 ≡ 0x0300)

is_vga-VgaAt :
    (config : Config) (b d : ℕ)
    → b < 256
    → d < 32
    → ((is_vga config b d ≡ true) × VgaAt config b d)
      ⊎ ((is_vga config b d ≡ false) × (¬ VgaAt config b d))
unfolding is_vga pci_config_read32
is_vga-VgaAt config b d low low' =
    let base : ℕ = 2 ^ 31 + b * 2 ^ 16 + d * 2 ^ 11 in
    let id_at : config (config_address b d 0 0) ≡ config base = ap config (
      config_address-sum b d 0 0 (omega arith) (omega arith) (omega arith) (omega arith)
      ∙ omega arith) in
    let class_at : config (config_address b d 0 8) ≡ config (base + 8) = ap config (
      config_address-sum b d 0 8 (omega arith) (omega arith) (omega arith) (omega arith)
      ∙ omega arith) in
    let vendor = bit_and_mask 16 (config (config_address b d 0 0)) in
    elim (Bool-cases (is_vga config b d)) [
      | inl here ↦
          let class_code : config (config_address b d 0 8) / 2 ^ 24 % 2 ^ 8 ≡ 3 =
            ground (arith, here) in
          let subclass : config (config_address b d 0 8) / 2 ^ 16 % 2 ^ 8 ≡ 0 =
            ground (arith, here) in
          inl (
            here,
            (
              λ e. absurd (ground (arith, here, vendor, id_at, e)),
              omega (arith, class_at, class_code, subclass),
            ),
          )
      | inr other ↦ inr (other, λ v. ground (arith, other, vendor, id_at, class_at, v.0, v.1))
    ]

real_vga :
    (config : Config) (b d : ℕ) → b < 256 → d < 32 → is_vga config b d ≡ true → VgaAt config b d
real_vga config b d low low' e = elim (is_vga-VgaAt config b d low low') [
  | inl (_, vga) ↦ vga
  | inr (other, _) ↦ absurd (ground (arith, e, other))
]

not_vga :
    (config : Config) (b d : ℕ) → b < 256 → d < 32 → is_vga config b d ≡ false → ¬ VgaAt config b d
not_vga config b d low low' e = elim (is_vga-VgaAt config b d low low') [
  | inl (here, _) ↦ absurd (ground (arith, e, here))
  | inr (_, none_here) ↦ none_here
]

-- The first VGA controller, by bus and then by device.
pub record Found (config : Config) (bus device : ℕ) : Type 0 where
  pub bus_below : bus < 256
  pub device_below : device < 32
  pub vga : VgaAt config bus device
  pub first : (b d : ℕ) → d < 32 → (b < bus) ⊎ ((b ≡ bus) × (d < device)) → ¬ VgaAt config b d

-- pci_find_vga_device finds the first device, by bus and then by number, whose function 0 is a VGA
-- controller, or reports that no device of the 256 buses is one in its function 0.
pub pci_find_vga_device_lem :
    (config : Config)
    → ((pci_find_vga_device config ≡ none) × ((b d : ℕ) → b < 256 → d < 32 → ¬ VgaAt config b d))
      ⊎ ((bus : ℕ) × (device : ℕ) × (pci_find_vga_device config ≡ some (bus, device))
          × Found config bus device)
unfolding pci_find_vga_device
pci_find_vga_device_lem config =
    let is_not = λ (b d : ℕ) (low : b < 256) (low' : d < 32) (e : is_vga config b d ≡ false).
      not_vga config b d low low' e in
    elim (scan_buses-cases 256 0 config refl) [
      | inl (failed, empty) ↦
          inl (
            failed,
            λ b d low low'. is_not b d low low' (empty b d (omega arith) (omega arith) low'),
          )
      | inr ((bus, device), done, (low, high, below, vga, first)) ↦ inr (
        bus,
        device,
        done,
        record {
          bus_below = high;
          device_below = below;
          vga = real_vga config bus device high below vga;
          first = λ b d low' before.
              is_not b d (omega (arith, before)) low' (first b d (omega arith) low' before);
        },
      )
    ]
