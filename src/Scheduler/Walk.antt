-- ===== src/Scheduler/Walk.antt =====
-- The loop of scheduler_yield on a ring, against the lists of Rotation.
use xenon_os.Base.{
  ℕ, zero, suc, ◌<◌, ◌==◌, update, ◌≡◌, ◌≢◌, refl, sym, ◌∙◌, ap, List, [], ◌∷◌, ◌++◌, arith, true,
  false, subst, update-other, update-same, length, some, inl, inr,
}
use xenon_os.Base.Distinct.{NotIn, Distinct}
use xenon_os.Scheduler.{
  blocked, Thread, Scheduler, Kind, dead, asleep, runnable, kind_of, set_next, wake, walk,
}
use xenon_os.Scheduler.Ring.{Chain, Chain-update, Chain-links, Chain-start}
use xenon_os.Scheduler.Rotation.{passed, reaped, from_runnable, onto, head_or, Kind-cases}
use xenon_os.Scheduler.Wake.{wake-Woken, set_next-kind}

pub Chain-next :
    (t : ℕ → Thread) (p : ℕ) (qs : List ℕ) (last : ℕ)
    → Chain t p qs last
    → (t p).next ≡ head_or qs last
Chain-next t p [] last c = c
Chain-next t p (q ∷ qs) last c = c.0

-- The outcome of the loop, from `prev` on.
pub record Walked (kind : ℕ → Kind) (prev : ℕ) (rest : List ℕ) (chosen : ℕ) (s s' : Scheduler)
    : Type 0 where
  pub chain : Chain s'.threads prev (passed kind rest ++ from_runnable kind rest) s.current
  pub same_current : s'.current ≡ s.current
  pub destroyed : s'.destroyed ≡ onto (reaped kind rest) s.destroyed
  pub frame : (x : ℕ) → NotIn x (prev ∷ rest) → s'.threads x ≡ s.threads x
  pub awake : chosen ≢ s.current → (s'.threads chosen).state ≢ blocked

-- The list without the thread `x` behind `prev`, and `x` destroyed.
abbrev reap : ℕ → ℕ → Scheduler → Scheduler
reap prev x s = record (set_next prev (s.threads x).next s) { destroyed = x ∷ s.destroyed }

module _ (ticks fuel prev : ℕ) (s : Scheduler) where
  walk-end : walk (suc fuel) ticks prev s.current s ≡ some (s.current, s)
  unfolding walk
  walk-end = let same : (s.current == s.current) ≡ true = ground arith in rw (same, walk) refl

  walk-dead :
      (x : ℕ)
      → x ≢ s.current
      → kind_of ticks (s.threads x) ≡ dead
      → walk (suc fuel) ticks prev x s ≡ walk fuel ticks prev (s.threads x).next (reap prev x s)
  unfolding walk
  walk-dead x ne k = let other : (x == s.current) ≡ false = ground arith in rw (other, k, walk) refl

  walk-asleep :
      (x : ℕ)
      → x ≢ s.current
      → kind_of ticks (s.threads x) ≡ asleep
      → walk (suc fuel) ticks prev x s ≡ walk fuel ticks x (s.threads x).next s
  unfolding walk
  walk-asleep x ne k =
      let other : (x == s.current) ≡ false = ground arith in rw (other, k, walk) refl

  walk-runnable :
      (x : ℕ)
      → x ≢ s.current
      → kind_of ticks (s.threads x) ≡ runnable
      → walk (suc fuel) ticks prev x s ≡ some (x, wake x s)
  unfolding walk
  walk-runnable x ne k =
      let other : (x == s.current) ≡ false = ground arith in rw (other, k, walk) refl

reap-Chain :
    (prev x : ℕ) (rest : List ℕ) (s : Scheduler)
    → NotIn prev (x ∷ rest)
    → Chain s.threads x rest s.current
    → Chain (reap prev x s).threads prev rest s.current
reap-Chain prev x rest s n c =
    let changed : Thread = record (s.threads prev) { next = (s.threads x).next } in
    let t = update s.threads prev changed in
    let same : (t prev).next ≡ (t x).next =
      ap (λ (r : Thread). r.next) (update-same s.threads prev changed)
      ∙ sym (
          ap (λ (r : Thread). r.next) (update-other s.threads prev x changed (λ e. n.0 (sym e)))) in
    Chain-start t x prev rest s.current same (Chain-update s.threads prev changed x rest _ n c)

-- One step of the loop in front of the others.
module _ (kind : ℕ → Kind) (prev x : ℕ) (rest : List ℕ) where
  dead-Walked :
      (chosen : ℕ) (s s' : Scheduler)
      → kind x ≡ dead
      → Walked kind prev rest chosen (reap prev x s) s'
      → Walked kind prev (x ∷ rest) chosen s s'
  unfolding passed from_runnable reaped onto
  dead-Walked chosen s s' e w = record {
    chain = rw (e, passed, from_runnable) w.chain;
    same_current = w.same_current;
    destroyed = rw (e, reaped) w.destroyed;
    frame = λ y n. w.frame y (n.0, n.1.1) ∙ update-other s.threads prev y _ n.0;
    awake = w.awake;
  }

  asleep-Walked :
      (chosen : ℕ) (s s' : Scheduler)
      → kind x ≡ asleep
      → (s.threads prev).next ≡ x
      → NotIn prev (x ∷ rest)
      → Walked kind x rest chosen s s'
      → Walked kind prev (x ∷ rest) chosen s s'
  unfolding passed from_runnable reaped
  asleep-Walked chosen s s' e link n w = record {
    chain =
        rw (e, passed, from_runnable)
          (ap (λ (r : Thread). r.next) (w.frame prev n) ∙ link, w.chain);
    same_current = w.same_current;
    destroyed = rw (e, reaped) w.destroyed;
    frame = λ y m. w.frame y m.1;
    awake = w.awake;
  }

  runnable-Walked :
      (s : Scheduler)
      → kind x ≡ runnable
      → Chain s.threads prev (x ∷ rest) s.current
      → Walked kind prev (x ∷ rest) x s (wake x s)
  unfolding passed from_runnable reaped onto
  runnable-Walked s e chain =
      let w = wake-Woken x s in
      record {
        chain =
            rw (e, passed, from_runnable)
              (Chain-links s.threads (wake x s).threads prev (x ∷ rest) s.current w.links chain);
        same_current = w.same_current;
        destroyed = rw (e, reaped) w.same_destroyed;
        frame = λ y n. w.others y n.1.0;
        awake = λ _. w.awake;
      }

module _ (ticks : ℕ) (kind : ℕ → Kind) where
  pub walk_lem :
      (fuel prev : ℕ) (rest : List ℕ) (s : Scheduler)
      → length rest < fuel
      → ((x : ℕ) → kind_of ticks (s.threads x) ≡ kind x)
      → Chain s.threads prev rest s.current
      → Distinct (prev ∷ rest)
      → NotIn s.current rest
      → (s' : Scheduler) × (walk fuel ticks prev (head_or rest s.current) s
          ≡ some (head_or (from_runnable kind rest) s.current, s'))
        × Walked kind prev rest (head_or (from_runnable kind rest) s.current) s s'
  unfolding passed from_runnable reaped onto
  walk_lem zero prev rest s f kinds chain distinct away = absurd (omega (arith, f))
  walk_lem (suc fuel) prev [] s f kinds chain distinct away = (
    s,
    walk-end ticks fuel prev s,
    record {
      chain = chain;
      same_current = refl;
      destroyed = refl;
      frame = λ x n. refl;
      awake = λ ne. absurd (ne refl);
    },
  )
  walk_lem (suc fuel) prev (x ∷ rest) s f kinds chain distinct away =
      let other : x ≢ s.current = λ e. away.0 (sym e) in
      let next = Chain-next s.threads x rest s.current chain.1 in
      elim (Kind-cases kind x) [
        | inl e ↦
            let skip : from_runnable kind (x ∷ rest) ≡ from_runnable kind rest =
              rw (e, from_runnable) refl in
            let s1 = reap prev x s in
            let (s', found, w) =
              walk_lem fuel prev rest s1 (omega (arith, f))
                (λ y. set_next-kind ticks prev (s.threads x).next y s ∙ kinds y)
                (reap-Chain prev x rest s distinct.0 chain.1) (distinct.0.1, distinct.1.1) away.1 in
            (
              s',
              walk-dead ticks fuel prev s x other (kinds x ∙ e)
                  ∙ ap (λ (c : ℕ). walk fuel ticks prev c s1) next
                  ∙ found
                  ∙ ap (λ (l : List ℕ). some (head_or l s.current, s')) (sym skip),
              subst (λ (l : List ℕ). Walked kind prev (x ∷ rest) (head_or l s.current) s s')
                  (sym skip) (dead-Walked kind prev x rest _ s s' e w),
            )
        | inr (inl e) ↦
            let skip : from_runnable kind (x ∷ rest) ≡ from_runnable kind rest =
              rw (e, from_runnable) refl in
            let (s', found, w) =
              walk_lem fuel x rest s (omega (arith, f)) kinds chain.1 distinct.1 away.1 in
            (
              s',
              walk-asleep ticks fuel prev s x other (kinds x ∙ e)
                  ∙ ap (λ (c : ℕ). walk fuel ticks x c s) next
                  ∙ found
                  ∙ ap (λ (l : List ℕ). some (head_or l s.current, s')) (sym skip),
              subst (λ (l : List ℕ). Walked kind prev (x ∷ rest) (head_or l s.current) s s')
                  (sym skip) (asleep-Walked kind prev x rest _ s s' e chain.0 distinct.0 w),
            )
        | inr (inr e) ↦ (
          wake x s,
          walk-runnable ticks fuel prev s x other (kinds x ∙ e) ∙ rw (e, from_runnable) refl,
          rw (e, from_runnable) (runnable-Walked kind prev x rest s e chain),
        )
      ]
