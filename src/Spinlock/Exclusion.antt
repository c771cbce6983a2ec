-- ===== src/Spinlock/Exclusion.antt =====
-- The critical sections that the lock protects.
use xenon_os.Base.{
  ℕ, Bool, true, false, List, [], ◌∷◌, ◌==◌, update, update-same, ◌≡◌, ◌≢◌, refl, arith, Bool-cases,
  ◌⊎◌, inl, inr, ap,
}
use xenon_os.Spinlock.{
  Place, outside, spinning, inside, leaving, Machine, atomic_xchg, spinlock_initialize, move,
  save_and_disable_interrupts, restore_interrupts, turn, turns,
}

abbrev pub is_inside : Place → Bool
is_inside outside = false
is_inside (spinning flags) = false
is_inside (inside flags) = true
is_inside (leaving flags) = false

-- Nobody is in the critical section while the lock is free; while it is taken exactly one core is.
pub record IsGuarded (s : Machine) : Type 0 where
  pub free : s.locked ≡ 0 → (core : ℕ) → is_inside (s.cores core) ≡ false
  pub held : s.locked ≢ 0 → (core : ℕ) × (is_inside (s.cores core) ≡ true)
  pub alone : (i j : ℕ) → is_inside (s.cores i) ≡ true → is_inside (s.cores j) ≡ true → i ≡ j

-- Who is inside after a move: one who was there and has not moved, or the one who moved.
moved :
    (cores : ℕ → Place) (core : ℕ) (place : Place) (i : ℕ)
    → is_inside (update cores core place i) ≡ true
    → ((i ≢ core) × (is_inside (cores i) ≡ true)) ⊎ ((i ≡ core) × (is_inside place ≡ true))
moved cores core place i p = elim (Bool-cases (i == core)) [
  | inl same ↦ inr (ground arith, ground arith)
  | inr other ↦ inl (ground arith, ground arith)
]

-- A move of one core between places outside the critical section.
stays-IsGuarded :
    (core : ℕ) (place : Place) (interrupts : ℕ → Bool) (s : Machine)
    → is_inside (s.cores core) ≡ false
    → is_inside place ≡ false
    → IsGuarded s
    → IsGuarded (move core place (record s { interrupts = interrupts }))
stays-IsGuarded core place interrupts s before after g = record {
  free = λ e i. ground (arith, after, g.free e i);
  held = λ ne. let (h, at) = g.held ne in (h, ground (arith, before, at));
  alone = λ i j p q. elim (moved s.cores core place i p) [
    | inl (_, at_i) ↦ elim (moved s.cores core place j q) [
      | inl (_, at_j) ↦ g.alone i j at_i at_j
      | inr (_, bad) ↦ ground (arith, after, bad)
    ]
    | inr (_, bad) ↦ ground (arith, after, bad)
  ];
}

enters-IsGuarded :
    (core : ℕ) (flags : Bool) (s : Machine)
    → s.locked ≡ 0
    → IsGuarded s
    → IsGuarded (move core (inside flags) (record s { locked = 1 }))
enters-IsGuarded core flags s is_free g = record {
  free = λ e i. absurd (omega (arith, e));
  held = λ ne. (core, ap is_inside (update-same s.cores core (inside flags)));
  alone = λ i j p q. elim (moved s.cores core (inside flags) i p) [
    | inl (_, at_i) ↦ ground (arith, g.free is_free i, at_i)
    | inr (eq_i, _) ↦ elim (moved s.cores core (inside flags) j q) [
      | inl (_, at_j) ↦ ground (arith, g.free is_free j, at_j)
      | inr (eq_j, _) ↦ omega (arith, eq_i, eq_j)
    ]
  ];
}

leaves-IsGuarded :
    (core : ℕ) (flags : Bool) (s : Machine)
    → is_inside (s.cores core) ≡ true
    → IsGuarded s
    → IsGuarded (move core (leaving flags) (record s { locked = 0 }))
leaves-IsGuarded core flags s at g =
    let empty : (i : ℕ) → is_inside (update s.cores core (leaving flags) i) ≢ true = λ i p.
      elim (moved s.cores core (leaving flags) i p) [
        | inl (ne, at_i) ↦ ne (g.alone i core at_i at)
        | inr (_, bad) ↦ ground (arith, bad)
      ] in
    record {
      free = λ e i. elim (Bool-cases (is_inside (update s.cores core (leaving flags) i))) [
        | inl in_it ↦ absurd (empty i in_it)
        | inr out ↦ out
      ];
      held = λ ne. absurd (ne refl);
      alone = λ i j p q. absurd (empty i p);
    }

turn_from :
    (core : ℕ) (s : Machine) (place : Place)
    → s.cores core ≡ place
    → IsGuarded s
    → IsGuarded (turn core s)
unfolding turn atomic_xchg save_and_disable_interrupts restore_interrupts
turn_from core s outside e g =
    rw (e, turn)
      (stays-IsGuarded core (spinning (s.interrupts core)) (update s.interrupts core false) s
        (ap is_inside e) refl g)
turn_from core s (spinning flags) e g = elim (Bool-cases (s.locked == 0)) [
  | inl is_free ↦ rw (e, is_free, turn) (enters-IsGuarded core flags s (ground arith) g)
  | inr taken ↦
      rw (e, taken, turn)
        (record {
          free = λ z. absurd (omega (arith, z));
          held = λ _. g.held (ground arith);
          alone = g.alone;
        })
]
turn_from core s (inside flags) e g =
    rw (e, turn) (leaves-IsGuarded core flags s (ap is_inside e) g)
turn_from core s (leaving flags) e g =
    rw (e, turn)
      (stays-IsGuarded core outside (update s.interrupts core flags) s (ap is_inside e) refl g)

pub turn-IsGuarded : (core : ℕ) (s : Machine) → IsGuarded s → IsGuarded (turn core s)
turn-IsGuarded core s g = turn_from core s (s.cores core) refl g

pub turns-IsGuarded : (order : List ℕ) (s : Machine) → IsGuarded s → IsGuarded (turns order s)
unfolding turns
turns-IsGuarded [] s g = g
turns-IsGuarded (core ∷ rest) s g = turns-IsGuarded rest (turn core s) (turn-IsGuarded core s g)

-- Nobody has begun to take the lock.
abbrev pub IsQuiet : Machine → Type 0
IsQuiet s = (core : ℕ) → s.cores core ≡ outside

initialize-IsGuarded : (s : Machine) → IsQuiet s → IsGuarded (spinlock_initialize s)
unfolding spinlock_initialize
initialize-IsGuarded s quiet = record {
  free = λ e core. ap is_inside (quiet core);
  held = λ ne. absurd (ne refl);
  alone = λ i j p q. absurd (ground (arith, ap is_inside (quiet i), p));
}

-- Once the lock is initialized with nobody at it, however the cores interleave, at most one of
-- them is between spinlock_acquire and spinlock_release; and the lock word is zero exactly while
-- none is.
pub mutual_exclusion :
    (order : List ℕ) (s : Machine) → IsQuiet s → IsGuarded (turns order (spinlock_initialize s))
mutual_exclusion order s quiet =
    turns-IsGuarded order (spinlock_initialize s) (initialize-IsGuarded s quiet)
