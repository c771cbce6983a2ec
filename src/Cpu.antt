-- ===== src/Cpu.antt =====
-- src/cpu/cpu.c: the vendor, family and model that the cpuid instruction tells.
pub mod Identify
use xenon_os.Base.{ℕ, ◌+◌, ◌*◌, ◌/◌, ◌^◌, ◌==◌, ◌||◌, if◌then◌else◌, List, [], ◌∷◌, bit_and, bit_or}

-- The registers after cpuid.
pub record Registers : Type 0 where
  pub eax : ℕ
  pub ebx : ℕ
  pub ecx : ℕ
  pub edx : ℕ

-- The answer of the processor for each leaf.
abbrev pub Cpuid : Type 0
Cpuid = ℕ → Registers

-- The 13 bytes written to `vendor`.
pub cpu_get_vendor : Cpuid → List ℕ
cpu_get_vendor cpuid =
    let r = cpuid 0 in
    bit_and r.ebx 0xFF
    ∷ bit_and (r.ebx / 2 ^ 8) 0xFF
    ∷ bit_and (r.ebx / 2 ^ 16) 0xFF
    ∷ bit_and (r.ebx / 2 ^ 24) 0xFF
    ∷ bit_and r.ecx 0xFF
    ∷ bit_and (r.ecx / 2 ^ 8) 0xFF
    ∷ bit_and (r.ecx / 2 ^ 16) 0xFF
    ∷ bit_and (r.ecx / 2 ^ 24) 0xFF
    ∷ bit_and r.edx 0xFF
    ∷ bit_and (r.edx / 2 ^ 8) 0xFF
    ∷ bit_and (r.edx / 2 ^ 16) 0xFF
    ∷ bit_and (r.edx / 2 ^ 24) 0xFF
    ∷ 0
    ∷ []

-- The family and the model.
pub cpu_get_version : Cpuid → ℕ × ℕ
cpu_get_version cpuid =
    let eax = (cpuid 1).eax in
    let base_family = bit_and (eax / 2 ^ 8) 0xF in
    let base_model = bit_and (eax / 2 ^ 4) 0xF in
    let extended_family = bit_and (eax / 2 ^ 20) 0xFF in
    let extended_model = bit_and (eax / 2 ^ 16) 0xF in
    (
      if base_family == 0xF then base_family + extended_family else base_family,
      if base_family == 0x6 || base_family == 0xF
          then bit_or base_model (extended_model * 2 ^ 4)
          else base_model,
    )
