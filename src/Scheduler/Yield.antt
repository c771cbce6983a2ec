-- ===== src/Scheduler/Yield.antt =====
-- scheduler_yield rotates the ring.
use xenon_os.Base.{
  ℕ, ◌<◌, ◌==◌, ◌≡◌, ◌≢◌, refl, sym, ◌∙◌, ap, List, [], ◌∷◌, ◌++◌, arith, true, false, subst,
  length, Option, some, none,
}
use xenon_os.Base.Distinct.{Distinct, NotIn-append_right, Distinct-rotate}
use xenon_os.Scheduler.{blocked, Scheduler, Kind, kind_of, switch_to, scheduler_yield}
use xenon_os.Scheduler.Ring.{Chain, IsRing, Chain-split, Chain-join}
use xenon_os.Scheduler.Rotation.{
  passed, reaped, from_runnable, onto, head_or, NotIn-kept, Distinct-kept,
}
use xenon_os.Scheduler.Walk.{walk_lem, Chain-next}

-- Who runs after whom, once the first of `waiting` has been switched to.
abbrev pub rotate : ℕ → List ℕ → List ℕ → List ℕ
rotate old pass [] = pass
rotate old pass (x ∷ behind) = behind ++ (old ∷ pass)

abbrev pub switched : ℕ → List ℕ → Option (ℕ × ℕ)
switched old [] = none
switched old (x ∷ behind) = some (old, x)

-- The state after the call, by the threads that the loop passed and those from the chosen one on.
pub record Yielded (s s' : Scheduler) (pass waiting : List ℕ) : Type 0 where
  pub ring : IsRing s' (rotate s.current pass waiting)
  pub current : s'.current ≡ head_or waiting s.current
  pub awake : head_or waiting s.current ≢ s.current → (s'.threads s'.current).state ≢ blocked

append-nil : (xs : List ℕ) → xs ++ [] ≡ xs
append-nil [] = refl
append-nil (x ∷ xs) = ap (λ (l : List ℕ). x ∷ l) (append-nil xs)

-- The chain in terms of the number that is current now.
stay :
    (s s' : Scheduler) (pass : List ℕ)
    → Chain s'.threads s.current pass s.current
    → s'.current ≡ s.current
    → Distinct (s.current ∷ pass)
    → IsRing s' pass
stay s s' pass chain same distinct = record {
  chain = subst (λ (c : ℕ). Chain s'.threads c pass c) (sym same) chain;
  distinct = subst (λ (c : ℕ). Distinct (c ∷ pass)) (sym same) distinct;
}

finish :
    (s s' : Scheduler) (pass waiting : List ℕ)
    → Chain s'.threads s.current (pass ++ waiting) s.current
    → s'.current ≡ s.current
    → Distinct (s.current ∷ (pass ++ waiting))
    → (head_or waiting s.current ≢ s.current
        → (s'.threads (head_or waiting s.current)).state ≢ blocked)
    → (s'' : Scheduler) × (switch_to (head_or waiting s.current) s'
        ≡ (switched s.current waiting, s''))
      × (s''.destroyed ≡ s'.destroyed)
      × Yielded s s'' pass waiting
unfolding switch_to
finish s s' pass [] chain same distinct awake =
    let at_home : (s.current == s'.current) ≡ true = ground (arith, same) in
    let whole = append-nil pass in
    (
      s',
      rw (at_home, switch_to) refl,
      refl,
      record {
        ring =
            stay s s' pass
              (subst (λ (l : List ℕ). Chain s'.threads s.current l s.current) whole chain) same
              (subst (λ (l : List ℕ). Distinct (s.current ∷ l)) whole distinct);
        current = same;
        awake = λ ne. absurd (ne refl);
      },
    )
finish s s' pass (x ∷ behind) chain same distinct awake =
    let apart = NotIn-append_right s.current pass (x ∷ behind) distinct.0 in
    let away : (x == s'.current) ≡ false = ground (arith, same, apart.0) in
    let (before, after) = Chain-split s'.threads s.current pass x behind s.current chain in
    (
      record s' { current = x },
      rw (away, switch_to) (ap (λ (c : ℕ). (some (c, x), record s' { current = x })) same),
      refl,
      record {
        ring = record {
          chain = Chain-join s'.threads x behind s.current pass x after before;
          distinct = Distinct-rotate (s.current ∷ pass) (x ∷ behind) distinct;
        };
        current = refl;
        awake = awake;
      },
    )

-- What the walk sees in each thread.
abbrev pub seen : ℕ → Scheduler → ℕ → Kind
seen ticks s x = kind_of ticks (s.threads x)

module _ (fuel ticks : ℕ) (s : Scheduler) (others : List ℕ) where
  -- On a ring, with fuel above the number of the other threads, scheduler_yield ends. It destroys the terminated threads in front of the first one
  -- that can run, passes the sleeping ones, and switches to that thread, which is not blocked any
  -- more; the old thread and the passed ones come behind all the others, in their order. When none
  -- can run the current one goes on. The threads that are left form a ring again.
  pub scheduler_yield_lem :
      IsRing s others
      → length others < fuel
      → (s' : Scheduler) × (scheduler_yield fuel ticks s
          ≡ some (switched s.current (from_runnable (seen ticks s) others), s'))
        × (s'.destroyed ≡ onto (reaped (seen ticks s) others) s.destroyed)
        × Yielded s s' (passed (seen ticks s) others) (from_runnable (seen ticks s) others)
  unfolding scheduler_yield
  scheduler_yield_lem ring f =
      let (walked, found, w) =
        walk_lem ticks (seen ticks s) fuel s.current others s f (λ x. refl) ring.chain ring.distinct
          ring.distinct.0 in
      let (s', done, kept, yielded) =
        finish s walked (passed (seen ticks s) others) (from_runnable (seen ticks s) others) w.chain
          w.same_current
          (
            NotIn-kept (seen ticks s) s.current others ring.distinct.0,
            Distinct-kept (seen ticks s) others ring.distinct.1,
          )
          w.awake in
      let start = Chain-next s.threads s.current others s.current ring.chain in
      (s', rw (start, found, scheduler_yield) (ap some done), kept ∙ w.destroyed, yielded)
