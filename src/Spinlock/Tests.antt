-- ===== src/Spinlock/Tests.antt =====
-- Two cores at one lock, and the theorems at concrete interleavings.
use xenon_os.Base.{ℕ, true, List, [], ◌∷◌, ◌≡◌, ◌⊎◌, refl}
use xenon_os.Spinlock.{
  Machine, outside, spinning, inside, spinlock_initialize, turn, turns, atomic_xchg,
  save_and_disable_interrupts,
}
use xenon_os.Spinlock.Exclusion.{is_inside, IsGuarded, mutual_exclusion}
use xenon_os.Spinlock.Progress.{Remembers, interrupts_restored, no_deadlock}

abbrev cold : Machine
cold = record { locked = 7; interrupts = λ core. true; cores = λ core. outside }

-- Core 0 gets the lock, core 1 comes and spins.
abbrev contended : List ℕ
contended = 0 ∷ 1 ∷ 0 ∷ 1 ∷ []

core_zero_inside : (turns contended (spinlock_initialize cold)).cores 0 ≡ inside true
unfolding turns turn atomic_xchg save_and_disable_interrupts spinlock_initialize
core_zero_inside = refl

core_one_spins : (turns contended (spinlock_initialize cold)).cores 1 ≡ spinning true
unfolding turns turn atomic_xchg save_and_disable_interrupts spinlock_initialize
core_one_spins = refl

mutual_exclusion_example : IsGuarded (turns contended (spinlock_initialize cold))
mutual_exclusion_example = mutual_exclusion contended cold (λ core. refl)

interrupts_restored_example : Remembers 1 true (turns (1 ∷ 0 ∷ 1 ∷ 1 ∷ 0 ∷ 1 ∷ []) cold)
interrupts_restored_example = interrupts_restored 1 (1 ∷ 0 ∷ 1 ∷ 1 ∷ 0 ∷ 1 ∷ []) cold refl

no_deadlock_example :
    ((turn 1 (turns contended (spinlock_initialize cold))).cores 1 ≡ inside true)
    ⊎ ((holder : ℕ) × (is_inside ((turns contended (spinlock_initialize cold)).cores holder) ≡ true)
        × ((turn 1 (turn holder (turns contended (spinlock_initialize cold)))).cores 1
            ≡ inside true))
no_deadlock_example = no_deadlock 1 true contended cold (λ core. refl) core_one_spins
