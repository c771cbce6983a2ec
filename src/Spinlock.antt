-- ===== src/Spinlock.antt =====
-- src/tasks/spinlock.c, spinlock.h: the lock, as cores (or interrupted contexts) that interleave
-- at its `asm` blocks. A core is a number; `cores` says where each of them is.
pub mod Exclusion
pub mod Progress
mod Tests
use xenon_os.Base.{
  ℕ, zero, suc, Bool, true, false, not, Option, some, none, List, [], ◌∷◌, ◌==◌, if◌then◌else◌,
  update, ◌≡◌, ◌≢◌,
}

-- struct spinlock, and for each core its interrupt flag (the bit of EFLAGS that matters here).
pub data Place : Type 0 where
  outside : Place
  spinning : Bool → Place
  inside : Bool → Place
  leaving : Bool → Place

pub record Machine : Type 0 where
  pub locked : ℕ
  pub interrupts : ℕ → Bool
  pub cores : ℕ → Place

-- Returns the old value.
pub atomic_xchg : ℕ → Machine → ℕ × Machine
atomic_xchg val s = (s.locked, record s { locked = val })

pub spinlock_initialize : Machine → Machine
spinlock_initialize s = record s { locked = 0 }

abbrev pub move : ℕ → Place → Machine → Machine
move core place s = record s { cores = update s.cores core place }

-- `pushfl; popl; cli`, the first block of spinlock_acquire. An interrupt in between restores the
-- flags, so the block is one step.
pub save_and_disable_interrupts : ℕ → Machine → Bool × Machine
save_and_disable_interrupts core s =
    (s.interrupts core, record s { interrupts = update s.interrupts core false })

-- `pushl; popfl`, the last block of spinlock_release.
pub restore_interrupts : ℕ → Bool → Machine → Machine
restore_interrupts core flags s = record s { interrupts = update s.interrupts core flags }

-- One turn of a core, through spinlock_acquire, the critical section and spinlock_release: each
-- call is one `asm` block of the code, which has at most one access to the lock. Between `inside` and `leaving` is the work that the
-- lock protects.
pub turn : ℕ → Machine → Machine
turn core s = elim (s.cores core) [
  | outside ↦ let (flags, s') = save_and_disable_interrupts core s in move core (spinning flags) s'
  | spinning flags ↦
      let (old, s') = atomic_xchg 1 s in if old == 0 then move core (inside flags) s' else s'
  | inside flags ↦ let (_, s') = atomic_xchg 0 s in move core (leaving flags) s'
  | leaving flags ↦ move core outside (restore_interrupts core flags s)
]

-- The cores in the order in which they take their turns.
pub turns : List ℕ → Machine → Machine
turns [] s = s
turns (core ∷ rest) s = turns rest (turn core s)
