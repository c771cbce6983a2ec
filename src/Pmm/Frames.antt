-- ===== src/Pmm/Frames.antt =====
-- What each function of pmm.c does to the state of a single frame.
use Prim.Native.Nat.{min}
use xenon_os.Base.{
  Bool, ℕ, zero, suc, ◌+◌, ◌-◌, ◌*◌, ◌/◌, ◌%◌, ◌^◌, ◌<◌, ◌≡◌, ◌≢◌, ◌↔◌, ◌&&◌, ◌==◌, leb, ltb,
  if◌then◌else◌, arith, bit_and, add64, Bool-cases, inl, inr, ap,
}
use native.Mathlib.Nat.{one-le-pow}
use xenon_os.Base.Bits.{
  bit, bit_and-pow, bit-lt, bit-pow, bit-bit_or, bit-bit_and, bit-complement, pow-lt, complement,
}
use xenon_os.Pmm.{
  Pmm, page_size, frame_count, set_frame, clear_frame, test_frame, set_frames, clear_frames,
  free_region, reserve_region, pmm_free,
}

-- 1 if the bitmap says that the frame is in use.
abbrev pub used : Pmm → ℕ → ℕ
used p frame = bit (p.bitmap (frame / 32)) (frame % 32)

pub used-set_frame : (f g : ℕ) (p : Pmm) → used (set_frame f p) g ≡ (if f == g then 1 else used p g)
unfolding set_frame
used-set_frame f g p = ground (
  arith,
  bit-bit_or (p.bitmap (f / 32)) (2 ^ (f % 32)) (g % 32),
  bit-pow (f % 32) (g % 32),
  bit-lt (p.bitmap (g / 32)) (g % 32),
)

pub used-clear_frame :
    (f g : ℕ) (p : Pmm) → used (clear_frame f p) g ≡ (if f == g then 0 else used p g)
unfolding clear_frame
used-clear_frame f g p = ground (
  arith,
  bit-bit_and (p.bitmap (f / 32)) (complement 32 (2 ^ (f % 32))) (g % 32),
  bit-complement 32 (2 ^ (f % 32)) (g % 32) (pow-lt 32 (f % 32) (omega arith)) (omega arith),
  bit-pow (f % 32) (g % 32),
  bit-lt (p.bitmap (g / 32)) (g % 32),
)

pub used-set_frames :
    (n f g : ℕ) (p : Pmm)
    → used (set_frames n f p) g ≡ (if leb f g && ltb g (f + n) then 1 else used p g)
unfolding set_frames
used-set_frames zero f g p = ground arith
used-set_frames (suc n) f g p =
    ground (arith, used-set_frames n (f + 1) g (set_frame f p), used-set_frame f g p)

pub used-clear_frames :
    (n f g : ℕ) (p : Pmm)
    → used (clear_frames n f p) g ≡ (if leb f g && ltb g (f + n) then 0 else used p g)
unfolding clear_frames
used-clear_frames zero f g p = ground arith
used-clear_frames (suc n) f g p =
    ground (arith, used-clear_frames n (f + 1) g (clear_frame f p), used-clear_frame f g p)

-- The frame lies in the region, whole.
abbrev pub inside : ℕ → ℕ → ℕ → Bool
inside base size g = leb base (g * page_size) && leb (g * page_size + page_size) (base + size)

-- The frame and the region share a byte.
abbrev pub overlaps : ℕ → ℕ → ℕ → Bool
overlaps base size g = ltb base (g * page_size + page_size) && ltb (g * page_size) (base + size)

-- free_region frees exactly the frames below FRAME_COUNT that lie in the region as a whole, and
-- leaves every other frame as it was, for a region whose end rounds up without a 64-bit wrap.
pub used-free_region :
    (base size g : ℕ) (p : Pmm)
    → base + size + page_size < 2 ^ 64
    → g < frame_count
    → used (free_region base size p) g ≡ (if inside base size g then 0 else used p g)
unfolding free_region
used-free_region base size g p h q =
    let first : ℕ = add64 base (page_size - 1) / page_size in
    let last : ℕ = add64 base size / page_size in
    ground (arith, used-clear_frames (min last frame_count - first) first g p)

-- reserve_region marks exactly the frames below FRAME_COUNT that share a byte with a region that
-- is not empty, and leaves every other frame as it was.
pub used-reserve_region :
    (base size g : ℕ) (p : Pmm)
    → base + size + page_size < 2 ^ 64
    → 0 < size
    → g < frame_count
    → used (reserve_region base size p) g ≡ (if overlaps base size g then 1 else used p g)
unfolding reserve_region
used-reserve_region base size g p h s q =
    let first : ℕ = base / page_size in
    let last : ℕ = add64 base (size + page_size - 1) / page_size in
    ground (arith, used-set_frames (min last frame_count - first) first g p)

-- pmm_free frees the frame that holds the address, and leaves every other frame as it was.
pub used-pmm_free :
    (address g : ℕ) (p : Pmm)
    → used (pmm_free address p) g ≡ (if address / page_size == g then 0 else used p g)
unfolding pmm_free
used-pmm_free address g p = ground (arith, used-clear_frame (address / page_size) g p)

masked_bit_pos : (word k : ℕ) → bit word k ≢ 0 → bit_and word (2 ^ k) ≢ 0
masked_bit_pos word k nz e =
    let one : bit word k ≡ 1 = omega (arith, bit-lt word k) in
    omega (arith, bit_and-pow word k, ap (λ (t : ℕ). t * 2 ^ k) one, one-le-pow k 2)

-- What `test_frame` answers is zero exactly for a free frame.
pub test_frame-eq-zero : (f : ℕ) (p : Pmm) → (test_frame f p ≡ 0) ↔ (used p f ≡ 0)
unfolding test_frame
test_frame-eq-zero f p =
    let k : ℕ = f % 32 in
    let word : ℕ = p.bitmap (f / 32) in
    let masked = bit_and-pow word k in
    (
      λ e. elim (Bool-cases (bit word k == 0)) [
        | inl z ↦ ground arith
        | inr nz ↦ absurd (masked_bit_pos word k (ground arith) e)
      ],
      λ e. omega (arith, masked, ap (λ (t : ℕ). t * 2 ^ k) e),
    )
