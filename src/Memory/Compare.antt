-- ===== src/Memory/Compare.antt =====
-- memcmp: where the first difference is, and what is returned.
use native.Mathlib.Nat.{add-zero}
use xenon_os.Base.{
  ℕ, zero, suc, ◌+◌, ◌-◌, ◌<◌, ◌≡◌, ◌≢◌, ◌⊎◌, inl, inr, refl, ◌==◌, arith, pos, sub_ℕ, Bool-cases,
  false,
}
use xenon_os.Memory.{Bytes, repe_cmpsb, memcmp}

-- The two ranges hold the same `n` bytes.
abbrev pub SameBytes : Bytes → ℕ → ℕ → ℕ → Type 0
SameBytes m a b n = (k : ℕ) → k < n → m (a + k) ≡ m (b + k)

-- The ranges differ first at `k`.
abbrev pub DifferAt : Bytes → ℕ → ℕ → ℕ → ℕ → Type 0
DifferAt m a b n k = (k < n) × SameBytes m a b k × (m (a + k) ≢ m (b + k))

SameBytes-suc :
    (m : Bytes) (a b n : ℕ) → m a ≡ m b → SameBytes m (a + 1) (b + 1) n → SameBytes m a b (suc n)
SameBytes-suc m a b n e h zero k = rw (add-zero a, add-zero b) e
SameBytes-suc m a b n e h (suc i) k =
    let left : a + suc i ≡ a + 1 + i = omega arith in
    let right : b + suc i ≡ b + 1 + i = omega arith in rw (left, right) (h i (omega arith))

DifferAt-suc :
    (m : Bytes) (a b n k : ℕ)
    → m a ≡ m b
    → DifferAt m (a + 1) (b + 1) n k
    → DifferAt m a b (suc n) (suc k)
DifferAt-suc m a b n k e (lt, same, differ) =
    let left : a + suc k ≡ a + 1 + k = omega arith in
    let right : b + suc k ≡ b + 1 + k = omega arith in
    (omega arith, SameBytes-suc m a b k e same, rw (left, right) differ)

-- The scan has compared all bytes, or stops behind the first that differs.
repe_cmpsb-cases :
    (n a b : ℕ) (m : Bytes)
    → (SameBytes m a b n × (repe_cmpsb n a b m ≡ n))
      ⊎ ((k : ℕ) × DifferAt m a b n k × (repe_cmpsb n a b m ≡ suc k))
unfolding repe_cmpsb
repe_cmpsb-cases zero a b m = inl (λ k h. elim h [ ], refl)
repe_cmpsb-cases (suc n) a b m = elim (Bool-cases (m a == m b)) [
  | inl same ↦
      let e : m a ≡ m b = ground arith in
      elim (repe_cmpsb-cases n (a + 1) (b + 1) m) [
        | inl (all, count) ↦ inl (SameBytes-suc m a b n e all, rw (same, count))
        | inr (k, differ, count) ↦ inr (suc k, DifferAt-suc m a b n k e differ, rw (same, count))
      ]
  | inr differ ↦
      inr
        (0, (omega arith, λ k h. elim h [ ], rw (add-zero a, add-zero b) (ground arith)), rw differ)
]

equal_bytes :
    (a b n : ℕ) (m : Bytes) → SameBytes m a b n → repe_cmpsb n a b m ≡ n → memcmp a b n m ≡ pos 0
unfolding memcmp
equal_bytes a b zero m same count = refl
equal_bytes a b (suc n) m same count =
    let left : a + suc n - 1 ≡ a + n = omega arith in
    let right : b + suc n - 1 ≡ b + n = omega arith in ground (arith, left, right, same n)

first_difference :
    (a b n k : ℕ) (m : Bytes)
    → DifferAt m a b n k
    → repe_cmpsb n a b m ≡ suc k
    → memcmp a b n m ≡ sub_ℕ (m (a + k)) (m (b + k))
unfolding memcmp
first_difference a b n k m (lt, same, differ) count =
    let left : a + suc k - 1 ≡ a + k = omega arith in
    let right : b + suc k - 1 ≡ b + k = omega arith in
    let some_bytes : (n == 0) ≡ false = ground arith in rw (some_bytes, count, left, right)

-- memcmp returns 0 if the ranges hold the same bytes, and otherwise the difference of the first two
-- bytes that differ.
pub memcmp-cases :
    (a b n : ℕ) (m : Bytes)
    → (SameBytes m a b n × (memcmp a b n m ≡ pos 0))
      ⊎ ((k : ℕ) × DifferAt m a b n k × (memcmp a b n m ≡ sub_ℕ (m (a + k)) (m (b + k))))
memcmp-cases a b n m = elim (repe_cmpsb-cases n a b m) [
  | inl (same, count) ↦ inl (same, equal_bytes a b n m same count)
  | inr (k, differ, count) ↦ inr (k, differ, first_difference a b n k m differ count)
]
