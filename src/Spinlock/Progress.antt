-- ===== src/Spinlock/Progress.antt =====
-- A core that spins gets the lock, and every core gets its interrupts back.
use xenon_os.Base.{
  ℕ, Bool, true, false, List, [], ◌∷◌, ◌==◌, update-same, update-other, ◌≡◌, ◌≢◌, refl, arith,
  Bool-cases, inl, inr, sym, ◌∙◌, ◌⊎◌, ℕ_discrete, subst,
}
use xenon_os.Spinlock.{
  Place, outside, spinning, inside, leaving, Machine, atomic_xchg, spinlock_initialize, move,
  save_and_disable_interrupts, restore_interrupts, turn, turns,
}
use xenon_os.Spinlock.Exclusion.{is_inside, IsQuiet, mutual_exclusion}

-- What the interrupt flag of a core will be once it has left: it is kept in `flags` meanwhile.
abbrev pub flag_after : Place → Bool → Bool
flag_after outside now = now
flag_after (spinning flags) now = flags
flag_after (inside flags) now = flags
flag_after (leaving flags) now = flags

abbrev pub is_outside : Place → Bool
is_outside outside = true
is_outside (spinning flags) = false
is_outside (inside flags) = false
is_outside (leaving flags) = false

-- The flag is kept, and is off while the core is at the lock.
abbrev pub Remembers : ℕ → Bool → Machine → Type 0
Remembers core flag s =
    (flag_after (s.cores core) (s.interrupts core) ≡ flag)
    × (is_outside (s.cores core) ≡ false → s.interrupts core ≡ false)

moved-Remembers :
    (core : ℕ) (flag : Bool) (s : Machine) (place : Place) (now : Bool)
    → s.interrupts core ≡ now
    → flag_after place now ≡ flag
    → (is_outside place ≡ false → now ≡ false)
    → Remembers core flag (move core place s)
moved-Remembers core flag s place now same p q = rw (update-same s.cores core place, same) (p, q)

own_turn :
    (core : ℕ) (flag : Bool) (s : Machine) (place : Place)
    → s.cores core ≡ place
    → Remembers core flag s
    → Remembers core flag (turn core s)
unfolding turn atomic_xchg save_and_disable_interrupts restore_interrupts
own_turn core flag s outside e r =
    rw (e, turn)
      (moved-Remembers core flag (save_and_disable_interrupts core s).1
        (spinning (s.interrupts core)) false (update-same s.interrupts core false) (rw e at r.0)
        (λ _. refl))
own_turn core flag s (spinning flags) e r =
    let (kept, off) = rw e at r in
    elim (Bool-cases (s.locked == 0)) [
      | inl is_free ↦
          rw (e, is_free, turn)
            (moved-Remembers core flag (atomic_xchg 1 s).1 (inside flags) (s.interrupts core) refl
              kept off)
      | inr taken ↦ rw (e, taken, turn) (rw e (kept, off))
    ]
own_turn core flag s (inside flags) e r =
    let (kept, off) = rw e at r in
    rw (e, turn)
      (moved-Remembers core flag (atomic_xchg 0 s).1 (leaving flags) (s.interrupts core) refl kept
        off)
own_turn core flag s (leaving flags) e r =
    rw (e, turn)
      (moved-Remembers core flag (restore_interrupts core flags s) outside flags
        (update-same s.interrupts core flags) (rw e at r.0) (λ bad. absurd (ground (arith, bad))))

-- What another core does reaches neither the place nor the flag of this one.
other_turn :
    (core other : ℕ) (s : Machine) (place : Place)
    → s.cores other ≡ place
    → core ≢ other
    → ((turn other s).cores core ≡ s.cores core)
      × ((turn other s).interrupts core ≡ s.interrupts core)
unfolding turn atomic_xchg save_and_disable_interrupts restore_interrupts
other_turn core other s outside e ne =
    rw (e, turn)
      (update-other s.cores other core _ ne, update-other s.interrupts other core false ne)
other_turn core other s (spinning flags) e ne = elim (Bool-cases (s.locked == 0)) [
  | inl is_free ↦ rw (e, is_free, turn) (update-other s.cores other core (inside flags) ne, refl)
  | inr taken ↦ rw (e, taken, turn) (refl, refl)
]
other_turn core other s (inside flags) e ne =
    rw (e, turn) (update-other s.cores other core (leaving flags) ne, refl)
other_turn core other s (leaving flags) e ne =
    rw (e, turn)
      (update-other s.cores other core outside ne, update-other s.interrupts other core flags ne)

turn-Remembers :
    (core other : ℕ) (flag : Bool) (s : Machine)
    → Remembers core flag s
    → Remembers core flag (turn other s)
turn-Remembers core other flag s r = elim (ℕ_discrete core other) [
  | yes eq ↦ subst (λ (i : ℕ). Remembers core flag (turn i s)) eq (own_turn core flag s _ refl r)
  | no ne ↦ let (place, now) = other_turn core other s _ refl ne in rw (place, now) r
]

turns-Remembers :
    (core : ℕ) (flag : Bool) (order : List ℕ) (s : Machine)
    → Remembers core flag s
    → Remembers core flag (turns order s)
unfolding turns
turns-Remembers core flag [] s r = r
turns-Remembers core flag (i ∷ rest) s r =
    turns-Remembers core flag rest (turn i s) (turn-Remembers core i flag s r)

-- However the cores interleave, a core that began outside has its interrupts off from the first
-- block of spinlock_acquire until it restores them, and whenever it is outside again its
-- interrupt flag is what it was at the beginning.
pub interrupts_restored :
    (core : ℕ) (order : List ℕ) (s : Machine)
    → s.cores core ≡ outside
    → Remembers core (s.interrupts core) (turns order s)
interrupts_restored core order s quiet =
    turns-Remembers core (s.interrupts core) order s
      (rw quiet (refl, λ bad. absurd (ground (arith, bad))))

inside-flags : (place : Place) → is_inside place ≡ true → (flags : Bool) × (place ≡ inside flags)
inside-flags outside e = absurd (ground (arith, e))
inside-flags (spinning flags) e = absurd (ground (arith, e))
inside-flags (inside flags) e = (flags, refl)
inside-flags (leaving flags) e = absurd (ground (arith, e))

takes_free :
    (core : ℕ) (flags : Bool) (s : Machine)
    → s.cores core ≡ spinning flags
    → s.locked ≡ 0
    → (turn core s).cores core ≡ inside flags
unfolding turn atomic_xchg
takes_free core flags s e is_free =
    let test : (s.locked == 0) ≡ true = ground arith in
    rw (e, test, turn) (update-same s.cores core (inside flags))

release_frees :
    (holder : ℕ) (flags : Bool) (s : Machine)
    → s.cores holder ≡ inside flags
    → (turn holder s).locked ≡ 0
unfolding turn atomic_xchg
release_frees holder flags s e = rw (e, turn) refl

-- In every state that is reached, a core that spins gets the lock in its next turn; or else some
-- core is in the critical section, and the one that spins gets the lock in the turn after that
-- core's release.
pub no_deadlock :
    (core : ℕ) (flags : Bool) (order : List ℕ) (s : Machine)
    → IsQuiet s
    → (turns order (spinlock_initialize s)).cores core ≡ spinning flags
    → ((turn core (turns order (spinlock_initialize s))).cores core ≡ inside flags)
      ⊎ ((holder : ℕ) × (is_inside ((turns order (spinlock_initialize s)).cores holder) ≡ true)
          × ((turn core (turn holder (turns order (spinlock_initialize s)))).cores core
              ≡ inside flags))
no_deadlock core flags order s quiet e =
    let reached = turns order (spinlock_initialize s) in
    let g = mutual_exclusion order s quiet in
    elim (ℕ_discrete reached.locked 0) [
      | yes is_free ↦ inl (takes_free core flags reached e is_free)
      | no taken ↦
          let (holder, at) = g.held taken in
          let (kept, place) = inside-flags (reached.cores holder) at in
          let apart : core ≢ holder = λ eq. absurd (
            ground (arith, subst (λ (i : ℕ). is_inside (reached.cores i) ≡ true) (sym eq) at, e)) in
          inr (
            holder,
            at,
            takes_free core flags (turn holder reached)
                ((other_turn core holder reached _ refl apart).0 ∙ e)
                (release_frees holder kept reached place),
          )
    ]
