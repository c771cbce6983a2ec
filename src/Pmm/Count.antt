-- ===== src/Pmm/Count.antt =====
-- How many frames are free, and how many pmm_alloc takes.
use xenon_os.Base.{
  ℕ, zero, suc, ◌+◌, ◌-◌, ◌<◌, ◌≤◌, ◌≡◌, ◌==◌, if◌then◌else◌, arith, ap, ◌∙◌, sym, ℕ_discrete, inl,
  inr, refl,
}
use xenon_os.Pmm.{Pmm, frame_count, pmm_alloc}
use xenon_os.Pmm.Bounds.{IsValid}
use xenon_os.Pmm.Frames.{used}
use xenon_os.Pmm.Alloc.{pmm_alloc-cases}

-- The free frames below a number.
pub free_below : ℕ → Pmm → ℕ
free_below zero p = 0
free_below (suc n) p = free_below n p + (1 - used p n)

pub free_frames : Pmm → ℕ
free_frames p = free_below frame_count p

module _ (f : ℕ) (p p' : Pmm) (taken : (g : ℕ) → used p' g ≡ (if f == g then 1 else used p g)) where
  free_below-same : (n : ℕ) → n ≤ f → free_below n p' ≡ free_below n p
  unfolding free_below
  free_below-same zero h = refl
  free_below-same (suc n) h =
      let same : used p' n ≡ used p n = taken n ∙ ground arith in
      omega (arith, same, free_below-same n (omega arith))

  free_below-taken : (n : ℕ) → free_below n p ≤ suc (free_below n p')
  unfolding free_below
  free_below-taken zero = omega arith
  free_below-taken (suc n) = elim (ℕ_discrete f n) [
    | yes here ↦ omega (arith, free_below-same n (omega (arith, here)))
    | no other ↦
        let same : used p' n ≡ used p n = taken n ∙ ground (arith, other) in
        omega (arith, same, free_below-taken n)
  ]

-- pmm_alloc takes at most one frame.
pub free_frames-pmm_alloc :
    (p : Pmm) → IsValid p → free_frames p ≤ suc (free_frames (pmm_alloc p).1)
unfolding free_frames
free_frames-pmm_alloc p v = elim (pmm_alloc-cases v) [
  | inl (none_free, _) ↦ omega (arith, ap (λ (r : ℕ × Pmm). free_below frame_count r.1) none_free)
  | inr (f, _, _, _, taken) ↦ free_below-taken f p (pmm_alloc p).1 taken frame_count
]

free_below-none : (n : ℕ) (p : Pmm) → ((f : ℕ) → f < n → used p f ≡ 1) → free_below n p ≡ 0
unfolding free_below
free_below-none zero p h = refl
free_below-none (suc n) p h =
    omega (arith, h n (omega arith), free_below-none n p (λ f lt. h f (omega arith)))

-- When every frame is in use, none is free.
pub free_frames-none : (p : Pmm) → ((f : ℕ) → f < frame_count → used p f ≡ 1) → free_frames p ≡ 0
unfolding free_frames
free_frames-none p h = free_below-none frame_count p h

free_below-run :
    (n a k : ℕ) (p : Pmm) → a + k ≤ n → ((j : ℕ) → j < k → used p (a + j) ≡ 0) → k ≤ free_below n p
unfolding free_below
free_below-run zero a k p h run = omega arith
free_below-run (suc n) a zero p h run = omega arith
free_below-run (suc n) a (suc k) p h run = elim (ℕ_discrete (a + k) n) [
  | yes here ↦
      let last : used p n ≡ 0 = ap (used p) (sym here) ∙ run k (omega arith) in
      omega
        (arith, last, free_below-run n a k p (omega (arith, here)) (λ j lt. run j (omega arith)))
  | no other ↦ omega (arith, free_below-run n a (suc k) p (omega (arith, other)) run)
]

-- A run of free frames counts as a whole.
pub free_frames-run :
    (a k : ℕ) (p : Pmm)
    → a + k ≤ frame_count
    → ((j : ℕ) → j < k → used p (a + j) ≡ 0)
    → k ≤ free_frames p
unfolding free_frames
free_frames-run a k p = free_below-run frame_count a k p
