-- ===== src/Base/Bits.antt =====
-- Single bits of a word: `|`, `&`, `~` and `1 << k`, read bit by bit.
use Prim.Native.Nat.{
  ℕ, zero, suc, ◌+◌, ◌-◌, ◌*◌, ◌/◌, ◌%◌, ◌^◌, ◌≤◌, ◌<◌, min, max, digits, bitwise, bit_and, bit_or,
  bit_and-bitwise, bit_or-bitwise,
}
use mathlib.Core.Path.{◌≡◌, refl, ap, ◌∙◌}
use native.Mathlib.Nat.{
  pow-suc, le_refl, one-le-pow, div-add-mod', mod-lt, mul-add-mod_self_right, mod-eq_of_lt,
}
use native.Mathlib.Omega.{arith}
use xenon_os.Base.Tests.{◌==◌, if◌then◌else◌}

-- bit `k` of `w`: 0 or 1
unfoldable pub bit : ℕ → ℕ → ℕ
bit w zero = w % 2
bit w (suc k) = bit (w / 2) k

-- `~w` on 32 bits, as a function of the width
abbrev pub complement : ℕ → ℕ → ℕ
complement width w = 2 ^ width - 1 - w

module _ (z : ℕ → ℕ) (f : ℕ → ℕ → ℕ) where
  -- Fuel from the larger operand down is never used up.
  more_fuel : (b a n m : ℕ) → a ≤ n → a ≤ m → digits z f m a b ≡ digits z f n a b
  more_fuel b zero zero zero h k = refl
  more_fuel b zero zero (suc m) h k = refl
  more_fuel b zero (suc n) zero h k = refl
  more_fuel b zero (suc n) (suc m) h k = refl
  more_fuel b (suc a) zero m h k = elim h [ ]
  more_fuel b (suc a) (suc n) zero h k = elim k [ ]
  more_fuel b (suc a) (suc n) (suc m) h k =
      ap (λ (t : ℕ). t * 2 + f (suc a % 2) (b % 2))
        (more_fuel (b / 2) (suc a / 2) n m (omega arith) (omega arith))

  low_digit :
      (b a : ℕ)
      → bitwise z f (suc a) b ≡ bitwise z f (suc a / 2) (b / 2) * 2 + f (suc a % 2) (b % 2)
  low_digit b a =
      ap (λ (t : ℕ). t * 2 + f (suc a % 2) (b % 2))
        (more_fuel (b / 2) (suc a / 2) (suc a / 2) a (le_refl _) (omega arith))

pub bit_and_step : (v w : ℕ) → bit_and v w ≡ bit_and (v / 2) (w / 2) * 2 + min (v % 2) (w % 2)
bit_and_step zero w = simp bit_and-bitwise (omega arith)
bit_and_step (suc v) w = simp bit_and-bitwise (low_digit (λ _. 0) min w v)

-- A digit of `|` is the larger one, and that of `0 | w` is that of `w`.
pub bit_or_step : (v w : ℕ) → bit_or v w ≡ 2 * bit_or (v / 2) (w / 2) + max (v % 2) (w % 2)
bit_or_step zero w = simp bit_or-bitwise (omega arith)
bit_or_step (suc v) w =
    let digit = low_digit (λ x. x) max w v in simp bit_or-bitwise (omega (arith, digit))

bit_or-half : (a b : ℕ) → bit_or a b / 2 ≡ bit_or (a / 2) (b / 2)
bit_or-half a b = omega (arith, bit_or_step a b)

bit_and-half : (a b : ℕ) → bit_and a b / 2 ≡ bit_and (a / 2) (b / 2)
bit_and-half a b = omega (arith, bit_and_step a b)

pub bit-lt : (w k : ℕ) → bit w k < 2
unfolding bit
bit-lt w zero = omega arith
bit-lt w (suc k) = bit-lt (w / 2) k

pub bit-zero : (k : ℕ) → bit 0 k ≡ 0
unfolding bit
bit-zero zero = refl
bit-zero (suc k) = bit-zero k

pub bit-bit_or : (a b k : ℕ) → bit (bit_or a b) k ≡ max (bit a k) (bit b k)
unfolding bit
bit-bit_or a b zero = omega (arith, bit_or_step a b)
bit-bit_or a b (suc k) = rw (bit_or-half a b) (bit-bit_or (a / 2) (b / 2) k)

pub bit-bit_and : (a b k : ℕ) → bit (bit_and a b) k ≡ min (bit a k) (bit b k)
unfolding bit
bit-bit_and a b zero = omega (arith, bit_and_step a b)
bit-bit_and a b (suc k) = rw (bit_and-half a b) (bit-bit_and (a / 2) (b / 2) k)

two-pow-suc : (n : ℕ) → 2 ^ suc n ≡ 2 * 2 ^ n
two-pow-suc n = omega (arith, pow-suc 2 n)

pub bit-pow : (i k : ℕ) → bit (2 ^ i) k ≡ (if i == k then 1 else 0)
unfolding bit
bit-pow zero zero = refl
bit-pow zero (suc k) = ground (arith, bit-zero k)
bit-pow (suc i) zero = ground (arith, two-pow-suc i)
bit-pow (suc i) (suc k) =
    let half : 2 ^ suc i / 2 ≡ 2 ^ i = omega (arith, two-pow-suc i) in
    rw half (ground (arith, bit-pow i k))

pub bit-complement : (n w k : ℕ) → w < 2 ^ n → k < n → bit (complement n w) k ≡ 1 - bit w k
unfolding bit
bit-complement zero w k h q = absurd (omega arith)
bit-complement (suc n) w zero h q = omega (arith, two-pow-suc n, one-le-pow n 2)
bit-complement (suc n) w (suc k) h q =
    let half : complement (suc n) w / 2 ≡ complement n (w / 2) =
      omega (arith, two-pow-suc n, one-le-pow n 2) in
    rw half (bit-complement n (w / 2) k (omega (arith, two-pow-suc n)) (omega arith))

-- `|` and `&` of words stay words.
pub bit_or-lt : (n a b : ℕ) → a < 2 ^ n → b < 2 ^ n → bit_or a b < 2 ^ n
bit_or-lt zero a b p q =
    let a0 : a ≡ 0 = omega arith in let b0 : b ≡ 0 = omega arith in rw (a0, b0) (omega arith)
bit_or-lt (suc n) a b p q = omega (
  arith,
  bit_or_step a b,
  two-pow-suc n,
  bit_or-lt n (a / 2) (b / 2) (omega (arith, two-pow-suc n)) (omega (arith, two-pow-suc n)),
)

pub bit_and-lt : (n a b : ℕ) → a < 2 ^ n → bit_and a b < 2 ^ n
bit_and-lt zero a b p = let a0 : a ≡ 0 = omega arith in rw a0 (ground (arith, bit_and-bitwise 0 b))
bit_and-lt (suc n) a b p = omega (
  arith,
  bit_and_step a b,
  two-pow-suc n,
  bit_and-lt n (a / 2) (b / 2) (omega (arith, two-pow-suc n)),
)

pub pow-lt : (n k : ℕ) → k < n → 2 ^ k < 2 ^ n
pow-lt zero k h = absurd (omega arith)
pow-lt (suc n) zero h = omega (arith, two-pow-suc n, one-le-pow n 2)
pow-lt (suc n) (suc k) h = omega (arith, two-pow-suc n, two-pow-suc k, pow-lt n k (omega arith))

-- A word all of whose bits are 1 is the all-ones word.
pub all_ones : (n w : ℕ) → w < 2 ^ n → ((k : ℕ) → k < n → bit w k ≡ 1) → w ≡ 2 ^ n - 1
unfolding bit
all_ones zero w h all = omega arith
all_ones (suc n) w h all = omega (
  arith,
  two-pow-suc n,
  one-le-pow n 2,
  all 0 (omega arith),
  all_ones n (w / 2) (omega (arith, two-pow-suc n)) (λ k q. all (suc k) (omega arith)),
)

pub bit-all_ones : (n k : ℕ) → k < n → bit (2 ^ n - 1) k ≡ 1
bit-all_ones n k h =
    let e : 2 ^ n - 1 ≡ complement n 0 = omega arith in
    rw e (omega (arith, bit-complement n 0 k (one-le-pow n 2 (omega arith)) h, bit-zero k))

bit_and-zero : (n a : ℕ) → a ≤ n → bit_and a 0 ≡ 0
bit_and-zero n zero h = refl
bit_and-zero zero (suc a) h = elim h [ ]
bit_and-zero (suc n) (suc a) h =
    omega (arith, bit_and_step (suc a) 0, bit_and-zero n (suc a / 2) (omega arith))

-- A mask of one bit keeps that bit, in its place.
pub bit_and-pow : (w k : ℕ) → bit_and w (2 ^ k) ≡ bit w k * 2 ^ k
unfolding bit
bit_and-pow w zero = omega (arith, bit_and_step w 1, bit_and-zero (w / 2) (w / 2) (le_refl _))
bit_and-pow w (suc k) =
    let half : 2 ^ suc k / 2 ≡ 2 ^ k = omega (arith, two-pow-suc k) in
    let ih : bit_and (w / 2) (2 ^ suc k / 2) ≡ bit (w / 2) k * 2 ^ k =
      rw half (bit_and-pow (w / 2) k) in
    omega (
      arith,
      bit_and_step w (2 ^ suc k),
      two-pow-suc k,
      ih,
      ap (λ (t : ℕ). bit (w / 2) k * t) (two-pow-suc k),
    )

pub zero_or : (w : ℕ) → bit_or 0 w ≡ w
zero_or w = simp bit_or-bitwise (omega arith)

or_zero : (n a : ℕ) → a ≤ n → bit_or a 0 ≡ a
or_zero n zero h = refl
or_zero zero (suc a) h = elim h [ ]
or_zero (suc n) (suc a) h =
    omega (arith, bit_or_step (suc a) 0, or_zero n (suc a / 2) (omega arith))

-- `(q << k) | r` is a sum where `r` fits the `k` low bits.
pub bit_or-add : (k q r : ℕ) → r < 2 ^ k → bit_or (q * 2 ^ k) r ≡ q * 2 ^ k + r
bit_or-add zero q r h =
    let r0 : r ≡ 0 = omega arith in
    let q1 : q * 2 ^ 0 ≡ q = omega arith in rw (r0, q1) (omega (arith, or_zero q q (le_refl q)))
bit_or-add (suc k) q r h =
    let low : r / 2 < 2 ^ k = omega (arith, two-pow-suc k) in
    let twice : q * 2 ^ suc k ≡ 2 * (q * 2 ^ k) =
      omega (arith, ap (λ (t : ℕ). q * t) (two-pow-suc k)) in
    let half : q * 2 ^ suc k / 2 ≡ q * 2 ^ k = omega (arith, twice) in
    let step : bit_or (q * 2 ^ suc k / 2) (r / 2) ≡ q * 2 ^ k + r / 2 =
      rw half (bit_or-add k q (r / 2) low) in
    omega (arith, bit_or_step (q * 2 ^ suc k) r, twice, step)

-- A mask of `k` low bits is the remainder by `2 ^ k`.
pub bit_and_mask : (k a : ℕ) → bit_and a (2 ^ k - 1) ≡ a % 2 ^ k
bit_and_mask zero a = omega (arith, bit_and-zero a a (le_refl a))
bit_and_mask (suc k) a =
    let q : ℕ = a / 2 / 2 ^ k in
    let r : ℕ = a / 2 % 2 ^ k in
    let split = div-add-mod' (a / 2) (2 ^ k) in
    let half : (2 ^ suc k - 1) / 2 ≡ 2 ^ k - 1 = omega (arith, two-pow-suc k, one-le-pow k 2) in
    let twice : q * 2 ^ suc k ≡ 2 * (q * 2 ^ k) =
      omega (arith, ap (λ (t : ℕ). q * t) (two-pow-suc k)) in
    let whole : a ≡ q * 2 ^ suc k + (2 * r + a % 2) = omega (arith, split, twice) in
    let small : 2 * r + a % 2 < 2 ^ suc k =
      omega (arith, mod-lt (a / 2) (one-le-pow k 2 (omega arith)), two-pow-suc k) in
    let left : a % 2 ^ suc k ≡ 2 * r + a % 2 =
      ap (λ (t : ℕ). t % 2 ^ suc k) whole
      ∙ mul-add-mod_self_right q (2 ^ suc k) (2 * r + a % 2)
      ∙ mod-eq_of_lt small in
    let step : bit_and (a / 2) ((2 ^ suc k - 1) / 2) ≡ r = rw half (bit_and_mask k (a / 2)) in
    omega (arith, bit_and_step a (2 ^ suc k - 1), step, left, two-pow-suc k, one-le-pow k 2)
