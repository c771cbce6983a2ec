-- ===== src/Memory/Words.antt =====
-- 32-bit loads and stores of byte memory: what a load sees of a store.
use xenon_os.Base.{ℕ, ◌+◌, ◌^◌, ◌≤◌, ◌<◌, ◌≡◌, ◌⊎◌, arith}
use xenon_os.Memory.{Bytes, store32, load32}

-- The four bytes from `b` on lie before or after the four from `a` on.
abbrev pub Apart32 : ℕ → ℕ → Type 0
Apart32 a b = (a + 4 ≤ b) ⊎ (b + 4 ≤ a)

pub store32-far : (m : Bytes) (a word b : ℕ) → (b < a) ⊎ (a + 4 ≤ b) → store32 m a word b ≡ m b
unfolding store32
store32-far m a word b h = ground arith

pub load32-store32_apart :
    (m : Bytes) (a word b : ℕ) → Apart32 a b → load32 (store32 m a word) b ≡ load32 m b
unfolding load32 store32
load32-store32_apart m a word b h = ground arith

pub load32-store32 : (m : Bytes) (a word : ℕ) → word < 2 ^ 32 → load32 (store32 m a word) a ≡ word
unfolding load32 store32
load32-store32 m a word h = ground arith
