-- ===== src/Cpu/Identify.antt =====
-- The vendor string and the version as numbers.
use xenon_os.Base.{
  ℕ, ◌+◌, ◌*◌, ◌/◌, ◌%◌, ◌^◌, ◌<◌, ◌≡◌, refl, ◌==◌, ◌||◌, if◌then◌else◌, arith, ◌∙◌, List, bit_and,
  bit_or, get_or,
}
use xenon_os.Base.Bits.{bit_and_mask}
use xenon_os.Base.Masks.{bit_or-high}
use xenon_os.Cpu.{Cpuid, cpu_get_vendor, cpu_get_version}

-- Four bytes of the string as a register.
abbrev pub word_at : List ℕ → ℕ → ℕ
word_at text i =
    get_or text i 0
    + 2 ^ 8 * get_or text (i + 1) 0
    + 2 ^ 16 * get_or text (i + 2) 0
    + 2 ^ 24 * get_or text (i + 3) 0

four_bytes :
    (w : ℕ)
    → w < 2 ^ 32
    → bit_and w 0xFF
        + 2 ^ 8 * bit_and (w / 2 ^ 8) 0xFF
        + 2 ^ 16 * bit_and (w / 2 ^ 16) 0xFF
        + 2 ^ 24 * bit_and (w / 2 ^ 24) 0xFF
      ≡ w
four_bytes w lt = omega (
  arith,
  bit_and_mask 8 w,
  bit_and_mask 8 (w / 2 ^ 8),
  bit_and_mask 8 (w / 2 ^ 16),
  bit_and_mask 8 (w / 2 ^ 24),
)

-- The vendor string holds EBX, ECX and EDX in this order, low byte first, and ends with a NUL.
pub cpu_get_vendor-words :
    (cpuid : Cpuid)
    → (cpuid 0).ebx < 2 ^ 32
    → (cpuid 0).ecx < 2 ^ 32
    → (cpuid 0).edx < 2 ^ 32
    → (word_at (cpu_get_vendor cpuid) 0 ≡ (cpuid 0).ebx)
      × (word_at (cpu_get_vendor cpuid) 4 ≡ (cpuid 0).ecx)
      × (word_at (cpu_get_vendor cpuid) 8 ≡ (cpuid 0).edx)
      × (get_or (cpu_get_vendor cpuid) 12 1 ≡ 0)
unfolding cpu_get_vendor
cpu_get_vendor-words cpuid b c d = (four_bytes _ b, four_bytes _ c, four_bytes _ d, refl)

-- The family of an Intel or AMD processor is the base family, plus the extended one if that is 15; the model
-- has the extended model as its high digit for the families 6 and 15.
pub cpu_get_version_lem :
    (cpuid : Cpuid)
    → ((cpu_get_version cpuid).0 ≡ (
        if (cpuid 1).eax / 2 ^ 8 % 16 == 15
        then 15 + (cpuid 1).eax / 2 ^ 20 % 256
        else (cpuid 1).eax / 2 ^ 8 % 16))
      × ((cpu_get_version cpuid).1 ≡ (
          if (cpuid 1).eax / 2 ^ 8 % 16 == 6 || (cpuid 1).eax / 2 ^ 8 % 16 == 15
          then (cpuid 1).eax / 2 ^ 16 % 16 * 16 + (cpuid 1).eax / 2 ^ 4 % 16
          else (cpuid 1).eax / 2 ^ 4 % 16))
unfolding cpu_get_version
cpu_get_version_lem cpuid =
    let eax : ℕ = (cpuid 1).eax in
    let family : bit_and (eax / 2 ^ 8) 0xF ≡ eax / 2 ^ 8 % 16 = bit_and_mask 4 (eax / 2 ^ 8) in
    let model : bit_and (eax / 2 ^ 4) 0xF ≡ eax / 2 ^ 4 % 16 = bit_and_mask 4 (eax / 2 ^ 4) in
    let family' : bit_and (eax / 2 ^ 20) 0xFF ≡ eax / 2 ^ 20 % 256 =
      bit_and_mask 8 (eax / 2 ^ 20) in
    let model' : bit_and (eax / 2 ^ 16) 0xF ≡ eax / 2 ^ 16 % 16 = bit_and_mask 4 (eax / 2 ^ 16) in
    let whole : bit_or (bit_and (eax / 2 ^ 4) 0xF) (bit_and (eax / 2 ^ 16) 0xF * 2 ^ 4)
        ≡ eax / 2 ^ 16 % 16 * 16 + eax / 2 ^ 4 % 16 =
      bit_or-high 4 (bit_and (eax / 2 ^ 16) 0xF) (bit_and (eax / 2 ^ 4) 0xF) (omega (arith, model))
      ∙ omega (arith, model, model') in
    (ground (arith, family, family'), ground (arith, family, whole, model))
