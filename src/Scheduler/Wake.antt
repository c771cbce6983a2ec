-- ===== src/Scheduler/Wake.antt =====
-- What a step of the loop of scheduler_yield keeps of the threads.
use xenon_os.Base.{
  ℕ, update, ◌≡◌, ◌≢◌, refl, sym, ◌∙◌, ap, arith, subst, update-other, update-same, ℕ_discrete, ◌⊎◌,
  inl, inr,
}
use xenon_os.Scheduler.{
  ThreadState, running, ready, blocked, terminated, Thread, Scheduler, kind_of, set_next, set_state,
  wake,
}

-- Changing a link changes no kind.
pub set_next-kind :
    (ticks p n x : ℕ) (s : Scheduler)
    → kind_of ticks ((set_next p n s).threads x) ≡ kind_of ticks (s.threads x)
unfolding kind_of
set_next-kind ticks p n x s =
    let changed : Thread = record (s.threads p) { next = n } in
    elim (ℕ_discrete x p) [
      | yes e ↦
          subst
            (λ (i : ℕ). kind_of ticks (update s.threads p changed i) ≡ kind_of ticks (s.threads i))
            (sym e) (ap (kind_of ticks) (update-same s.threads p changed))
      | no ne ↦ ap (kind_of ticks) (update-other s.threads p x changed ne)
    ]

wake-cases :
    (p : ℕ) (s : Scheduler) (state : ThreadState)
    → (s.threads p).state ≡ state
    → (wake p s ≡ set_state p ready s) ⊎ ((wake p s ≡ s) × ((s.threads p).state ≢ blocked))
unfolding wake
wake-cases p s running e = inr (rw (e, wake) refl, λ b. absurd (ground (arith, e, b)))
wake-cases p s ready e = inr (rw (e, wake) refl, λ b. absurd (ground (arith, e, b)))
wake-cases p s blocked e = inl (rw (e, wake) refl)
wake-cases p s terminated e = inr (rw (e, wake) refl, λ b. absurd (ground (arith, e, b)))

set_state-next :
    (p x : ℕ) (state : ThreadState) (s : Scheduler)
    → ((set_state p state s).threads x).next ≡ (s.threads x).next
set_state-next p x state s =
    let changed : Thread = record (s.threads p) { state = state } in
    elim (ℕ_discrete x p) [
      | yes e ↦
          subst (λ (i : ℕ). (update s.threads p changed i).next ≡ (s.threads i).next) (sym e)
            (ap (λ (t : Thread). t.next) (update-same s.threads p changed))
      | no ne ↦ ap (λ (t : Thread). t.next) (update-other s.threads p x changed ne)
    ]

ready-not-blocked : ready ≢ blocked
ready-not-blocked e = absurd (ground (arith, e))

-- What waking the chosen thread keeps, and that it is not blocked after it.
pub record Woken (p : ℕ) (s s' : Scheduler) : Type 0 where
  pub links : (x : ℕ) → (s'.threads x).next ≡ (s.threads x).next
  pub others : (x : ℕ) → x ≢ p → s'.threads x ≡ s.threads x
  pub same_current : s'.current ≡ s.current
  pub same_destroyed : s'.destroyed ≡ s.destroyed
  pub awake : (s'.threads p).state ≢ blocked

pub wake-Woken : (p : ℕ) (s : Scheduler) → Woken p s (wake p s)
wake-Woken p s =
    let woken : Thread = record (s.threads p) { state = ready } in
    elim (wake-cases p s _ refl) [
      | inl e ↦
          subst (λ (s' : Scheduler). Woken p s s') (sym e)
            (record {
              links = λ x. set_state-next p x ready s;
              others = λ x ne. update-other s.threads p x woken ne;
              same_current = refl;
              same_destroyed = refl;
              awake = λ bad.
                  ready-not-blocked
                    (sym (ap (λ (t : Thread). t.state) (update-same s.threads p woken)) ∙ bad);
            })
      | inr (e, ne) ↦
          subst (λ (s' : Scheduler). Woken p s s') (sym e)
            (record {
              links = λ x. refl;
              others = λ x _. refl;
              same_current = refl;
              same_destroyed = refl;
              awake = ne;
            })
    ]
