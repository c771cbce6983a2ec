-- ===== src/Pmm/Alloc.antt =====
-- pmm_alloc and pmm_free against a set of used frames.
use xenon_os.Base.{
  ℕ, zero, suc, ◌*◌, ◌/◌, ◌%◌, ◌^◌, ◌<◌, ◌≡◌, ◌≢◌, ◌⊎◌, inl, inr, ap, ◌∙◌, arith, ◌==◌,
  if◌then◌else◌, false,
}
use native.Mathlib.Nat.{pow-suc}
use xenon_os.Base.Bits.{bit, bit-lt, bit-complement, bit-all_ones, complement}
use xenon_os.Pmm.{
  Pmm, frame_count, page_size, full_word, no_frame, ctz, free_in_word, pmm_alloc, pmm_free,
}
use xenon_os.Pmm.Frames.{used, used-set_frame, used-pmm_free}
use xenon_os.Pmm.Bounds.{IsValid, first_free_frame-cases, pmm_alloc-IsValid}

-- The lowest set bit of a word that is not zero.
ctz-bit : (n w : ℕ) → w < 2 ^ n → w ≢ 0 → (ctz n w < n) × (bit w (ctz n w) ≡ 1)
unfolding ctz bit
ctz-bit zero w h ne = absurd (ne (omega arith))
ctz-bit (suc n) w h ne = ground (arith, pow-suc 2 n, ctz-bit n (w / 2))

-- A word that is not full yields a frame of that word that is free.
free_in_word-free :
    (p : Pmm) (i : ℕ)
    → p.bitmap i < 2 ^ 32
    → p.bitmap i ≢ full_word
    → (free_in_word p i / 32 ≡ i) × (used p (free_in_word p i) ≡ 0)
free_in_word-free p i h ne =
    let w : ℕ = complement 32 (p.bitmap i) in
    let found = ctz-bit 32 w (omega arith) (omega arith) in
    let k : ℕ = ctz 32 w in
    ground (arith, found, bit-complement 32 (p.bitmap i) k h, bit-lt (p.bitmap i) k)

-- pmm_alloc on a valid state has one of two results. Either it returns (uint32_t)-1 and changes
-- nothing, and then every frame is in use; or it returns the address, below 4 GB and page-aligned,
-- of a frame that was free, marks that frame, and leaves every other frame as it was.
pub pmm_alloc-cases :
    {p : Pmm}
    → IsValid p
    → ((pmm_alloc p ≡ (no_frame, p)) × ((f : ℕ) → f < frame_count → used p f ≡ 1))
      ⊎ ((f : ℕ) × (f < frame_count)
          × ((pmm_alloc p).0 ≡ f * page_size)
          × (used p f ≡ 0)
          × ((g : ℕ) → used (pmm_alloc p).1 g ≡ (if f == g then 1 else used p g)))
unfolding pmm_alloc
pmm_alloc-cases {p} v = elim (first_free_frame-cases v) [
  | inl none_free ↦ inl (
    rw none_free.0,
    λ f h. rw (none_free.1 (f / 32) (omega arith)) (bit-all_ones 32 (f % 32) (omega arith)),
  )
  | inr (i, found) ↦
      let free = free_in_word-free p i (v.words i) found.1 in
      let f : ℕ = free_in_word p i in
      let in_range : f < frame_count = omega (arith, free.0, found.0) in
      let ok : (f == no_frame) ≡ false = ground arith in
      inr (
        f,
        in_range,
        rw (found.2, ok) (omega arith),
        free.1,
        λ g. rw (found.2, ok) (used-set_frame f g (record p { search_hint = i })),
      )
]

-- Two allocations in a row that succeed return different addresses.
pub pmm_alloc-distinct :
    {p : Pmm}
    → IsValid p
    → (pmm_alloc p).0 ≢ no_frame
    → (pmm_alloc p).0 ≢ (pmm_alloc (pmm_alloc p).1).0
pmm_alloc-distinct {p} v ok same = elim (pmm_alloc-cases v) [
  | inl (none_free, _) ↦ ok (ap (λ (r : ℕ × Pmm). r.0) none_free)
  | inr (f, _, address, _, after) ↦ elim (pmm_alloc-cases (pmm_alloc-IsValid v)) [
    | inl (none_free, _) ↦ ok (same ∙ ap (λ (r : ℕ × Pmm). r.0) none_free)
    | inr (f', _, address', free', _) ↦
        let f_same : f ≡ f' = omega (arith, address, address', same) in
        ground (arith, f_same, free', after f')
  ]
]

-- On a valid state, if pmm_alloc did not return (uint32_t)-1, freeing what it returned gives every frame
-- the state that it had before.
pub pmm_free-pmm_alloc :
    {p : Pmm} (g : ℕ)
    → IsValid p
    → (pmm_alloc p).0 ≢ no_frame
    → used (pmm_free (pmm_alloc p).0 (pmm_alloc p).1) g ≡ used p g
pmm_free-pmm_alloc {p} g v ok = elim (pmm_alloc-cases v) [
  | inl (none_free, _) ↦ absurd (ok (ap (λ (r : ℕ × Pmm). r.0) none_free))
  | inr (f, lt, address, free, rest) ↦ rw (used-pmm_free, rest g, address) (ground (arith, free))
]

-- While a frame below FRAME_COUNT is free, pmm_alloc succeeds.
pub pmm_alloc-ok :
    {p : Pmm} (f : ℕ) → IsValid p → f < frame_count → used p f ≡ 0 → (pmm_alloc p).0 ≢ no_frame
pmm_alloc-ok {p} f v lt free e = elim (pmm_alloc-cases v) [
  | inl (_, all_used) ↦ omega (arith, all_used f lt, free)
  | inr (f', lt', address, _, _) ↦ omega (arith, lt', address, e)
]
