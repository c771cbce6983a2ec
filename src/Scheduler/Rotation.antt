-- ===== src/Scheduler/Rotation.antt =====
-- What scheduler_yield means to do with the threads behind the current one, as lists.
use xenon_os.Base.{ℕ, ◌≡◌, refl, List, [], ◌∷◌, ◌++◌, ◌⊎◌, inl, inr}
use xenon_os.Base.Distinct.{NotIn, Distinct}
use xenon_os.Scheduler.{Kind, dead, asleep, runnable}

-- What the walk makes of the threads behind the current one: up to the first that can run.
module _ (kind : ℕ → Kind) where
  -- The sleeping threads that it passes.
  unfoldable pub passed : List ℕ → List ℕ
  passed [] = []
  passed (x ∷ xs) = elim (kind x) [ dead ↦ passed xs | asleep ↦ x ∷ passed xs | runnable ↦ [] ]

  -- The terminated threads that it destroys.
  unfoldable pub reaped : List ℕ → List ℕ
  reaped [] = []
  reaped (x ∷ xs) = elim (kind x) [ dead ↦ x ∷ reaped xs | asleep ↦ reaped xs | runnable ↦ [] ]

  -- The first thread that can run, and all behind it.
  unfoldable pub from_runnable : List ℕ → List ℕ
  from_runnable [] = []
  from_runnable (x ∷ xs) = elim (kind x) [
    | dead ↦ from_runnable xs
    | asleep ↦ from_runnable xs
    | runnable ↦ x ∷ xs
  ]

  pub Kind-cases : (x : ℕ) → (kind x ≡ dead) ⊎ ((kind x ≡ asleep) ⊎ (kind x ≡ runnable))
  Kind-cases x = elim (kind x) as (λ k. (k ≡ dead) ⊎ ((k ≡ asleep) ⊎ (k ≡ runnable))) [
    | dead ↦ inl refl
    | asleep ↦ inr (inl refl)
    | runnable ↦ inr (inr refl)
  ]

  pub NotIn-kept : (y : ℕ) (xs : List ℕ) → NotIn y xs → NotIn y (passed xs ++ from_runnable xs)
  unfolding passed from_runnable
  NotIn-kept y [] n = tt
  NotIn-kept y (x ∷ xs) n = elim (Kind-cases x) [
    | inl e ↦ rw (e, passed, from_runnable) (NotIn-kept y xs n.1)
    | inr (inl e) ↦ rw (e, passed, from_runnable) (n.0, NotIn-kept y xs n.1)
    | inr (inr e) ↦ rw (e, passed, from_runnable) n
  ]

  pub Distinct-kept : (xs : List ℕ) → Distinct xs → Distinct (passed xs ++ from_runnable xs)
  unfolding passed from_runnable
  Distinct-kept [] d = tt
  Distinct-kept (x ∷ xs) d = elim (Kind-cases x) [
    | inl e ↦ rw (e, passed, from_runnable) (Distinct-kept xs d.1)
    | inr (inl e) ↦ rw (e, passed, from_runnable) (NotIn-kept x xs d.0, Distinct-kept xs d.1)
    | inr (inr e) ↦ rw (e, passed, from_runnable) d
  ]

-- The threads taken off the list in turn, in front of those destroyed before.
unfoldable pub onto : List ℕ → List ℕ → List ℕ
onto [] done = done
onto (x ∷ xs) done = onto xs (x ∷ done)

abbrev pub head_or : List ℕ → ℕ → ℕ
head_or [] d = d
head_or (x ∷ xs) d = x
