-- ===== src/Base/Masks.antt =====
-- Masks of high bits, `x & ~(2 ^ k - 1)`, and `r | (q << k)`.
use Prim.Native.Nat.{ℕ, zero, suc, ◌+◌, ◌-◌, ◌*◌, ◌/◌, ◌%◌, ◌^◌, ◌<◌, bit_and, bit_or}
use mathlib.Core.Path.{◌≡◌, ap, ◌∙◌}
use native.Mathlib.Nat.{pow-suc}
use native.Mathlib.Omega.{arith}
use xenon_os.Base.Bits.{bit_and_step, bit_and_mask, bit_or_step, zero_or}

two-pow-suc' : (k : ℕ) → 2 ^ suc k ≡ 2 * 2 ^ k
two-pow-suc' k = omega (arith, pow-suc 2 k)

pub bit_or-high : (k q r : ℕ) → r < 2 ^ k → bit_or r (q * 2 ^ k) ≡ q * 2 ^ k + r
bit_or-high zero q r h =
    let r0 : r ≡ 0 = omega arith in
    let q1 : q * 2 ^ 0 ≡ q = omega arith in rw (r0, q1) (omega (arith, zero_or q))
bit_or-high (suc k) q r h =
    let low : r / 2 < 2 ^ k = omega (arith, two-pow-suc' k) in
    let twice : q * 2 ^ suc k ≡ 2 * (q * 2 ^ k) =
      omega (arith, ap (λ (t : ℕ). q * t) (two-pow-suc' k)) in
    let half : q * 2 ^ suc k / 2 ≡ q * 2 ^ k = omega (arith, twice) in
    let step : bit_or (r / 2) (q * 2 ^ suc k / 2) ≡ q * 2 ^ k + r / 2 =
      rw half (bit_or-high k q (r / 2) low) in
    omega (arith, bit_or_step r (q * 2 ^ suc k), twice, step)

pub bit_and-shifted :
    (k q r m : ℕ) → r < 2 ^ k → bit_and (q * 2 ^ k + r) (m * 2 ^ k) ≡ bit_and q m * 2 ^ k
bit_and-shifted zero q r m h =
    let r0 : r ≡ 0 = omega arith in
    let q1 : q * 2 ^ 0 + 0 ≡ q = omega arith in
    let m1 : m * 2 ^ 0 ≡ m = omega arith in rw (r0, q1, m1) (omega arith)
bit_and-shifted (suc k) q r m h =
    let twice_q : q * 2 ^ suc k ≡ 2 * (q * 2 ^ k) =
      omega (arith, ap (λ (t : ℕ). q * t) (two-pow-suc' k)) in
    let twice_m : m * 2 ^ suc k ≡ 2 * (m * 2 ^ k) =
      omega (arith, ap (λ (t : ℕ). m * t) (two-pow-suc' k)) in
    let twice_a : bit_and q m * 2 ^ suc k ≡ 2 * (bit_and q m * 2 ^ k) =
      omega (arith, ap (λ (t : ℕ). bit_and q m * t) (two-pow-suc' k)) in
    let half_q : (q * 2 ^ suc k + r) / 2 ≡ q * 2 ^ k + r / 2 = omega (arith, twice_q) in
    let half_m : m * 2 ^ suc k / 2 ≡ m * 2 ^ k = omega (arith, twice_m) in
    let step : bit_and ((q * 2 ^ suc k + r) / 2) (m * 2 ^ suc k / 2) ≡ bit_and q m * 2 ^ k =
      rw (half_q, half_m) (bit_and-shifted k q (r / 2) m (omega (arith, two-pow-suc' k))) in
    omega (arith, bit_and_step (q * 2 ^ suc k + r) (m * 2 ^ suc k), step, twice_m, twice_a)

-- `a & 0xFFFFF000` rounds an address down to its page.
pub bit_and-page : (a : ℕ) → a < 2 ^ 32 → bit_and a 0xFFFFF000 ≡ a / 4096 * 4096
bit_and-page a h =
    let split : a / 4096 * 2 ^ 12 + a % 4096 ≡ a = omega arith in
    let whole : bit_and (a / 4096 * 2 ^ 12 + a % 4096) ((2 ^ 20 - 1) * 2 ^ 12)
        ≡ bit_and (a / 4096) (2 ^ 20 - 1) * 2 ^ 12 =
      bit_and-shifted 12 (a / 4096) (a % 4096) (2 ^ 20 - 1) (omega arith) in
    ap (λ (t : ℕ). bit_and t 0xFFFFF000) (omega arith)
    ∙ whole
    ∙ omega (arith, bit_and_mask 20 (a / 4096))
