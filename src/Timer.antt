-- ===== src/Timer.antt =====
-- src/cpu/pit.c: the interval timer and its tick counter. The bytes written to ports are a list, the
-- newest first.
use xenon_os.Base.{ℕ, ◌/◌, ◌^◌, List, ◌∷◌, bit_and, add32}

abbrev pub pit_frequency : ℕ
pit_frequency = 1193180

-- `outb` takes a byte.
pub pit_initialize : ℕ → List (ℕ × ℕ) → List (ℕ × ℕ)
pit_initialize frequency ports =
    let divisor = pit_frequency / frequency in
    (0x40, bit_and (divisor / 2 ^ 8) 0xFF) ∷ (0x40, bit_and divisor 0xFF) ∷ (0x43, 0x36) ∷ ports

pub pit_tick : ℕ → ℕ
pit_tick pit_ticks = add32 pit_ticks 1

pub pit_get_ticks : ℕ → ℕ
pit_get_ticks pit_ticks = pit_ticks
