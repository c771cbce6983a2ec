-- ===== src/Memory.antt =====
-- src/utils/string.c: memcpy, memset and memcmp on byte memory. A buffer does not run past the end
-- of the address space, so addresses are not taken modulo 2 ^ 32.
pub mod Copy
pub mod Compare
pub mod Words
mod Tests
use xenon_os.Base.{
  ℕ, zero, suc, ◌+◌, ◌-◌, ◌*◌, ◌/◌, ◌%◌, ◌^◌, ◌==◌, if◌then◌else◌, update, mul32, ℤ, pos, negsuc,
  sub_ℕ, true, false,
}

-- The byte at each address.
abbrev pub Bytes : Type 0
Bytes = ℕ → ℕ

-- A 32-bit store, the low byte first.
unfoldable pub store32 : Bytes → ℕ → ℕ → Bytes
store32 m a word =
    update
      (update (update (update m a (word % 2 ^ 8)) (a + 1) (word / 2 ^ 8 % 2 ^ 8)) (a + 2)
        (word / 2 ^ 16 % 2 ^ 8))
      (a + 3) (word / 2 ^ 24 % 2 ^ 8)

unfoldable pub load32 : Bytes → ℕ → ℕ
load32 m a = m a + 2 ^ 8 * m (a + 1) + 2 ^ 16 * m (a + 2) + 2 ^ 24 * m (a + 3)

-- `rep movsl` and `rep movsb`, with the direction flag clear, by the count left in ECX.
pub rep_movsl : ℕ → ℕ → ℕ → Bytes → Bytes
rep_movsl zero d s m = m
rep_movsl (suc count) d s m = rep_movsl count (d + 4) (s + 4) (store32 m d (load32 m s))

pub rep_movsb : ℕ → ℕ → ℕ → Bytes → Bytes
rep_movsb zero d s m = m
rep_movsb (suc count) d s m = rep_movsb count (d + 1) (s + 1) (update m d (m s))

-- `words` is n / 4 and `remainder` n % 4; the pointers go on from where the first copy ends.
pub memcpy : ℕ → ℕ → ℕ → Bytes → Bytes
memcpy dest src n m =
    rep_movsb (n % 4) (dest + 4 * (n / 4)) (src + 4 * (n / 4)) (rep_movsl (n / 4) dest src m)

-- `rep stosl` and `rep stosb`.
pub rep_stosl : ℕ → ℕ → ℕ → Bytes → Bytes
rep_stosl zero d word m = m
rep_stosl (suc count) d word m = rep_stosl count (d + 4) word (store32 m d word)

pub rep_stosb : ℕ → ℕ → ℕ → Bytes → Bytes
rep_stosb zero d byte m = m
rep_stosb (suc count) d byte m = rep_stosb count (d + 1) byte (update m d byte)

-- The value is given as the unsigned representation of the `int`.
pub memset : ℕ → ℕ → ℕ → Bytes → Bytes
memset dest value n m =
    let byte = value % 2 ^ 8 in
    let word = mul32 byte 0x01010101 in
    rep_stosb (n % 4) (dest + 4 * (n / 4)) byte (rep_stosl (n / 4) dest word m)

-- `repe cmpsb`: how many bytes are compared, the one that differs included.
pub repe_cmpsb : ℕ → ℕ → ℕ → Bytes → ℕ
repe_cmpsb zero x y m = 0
repe_cmpsb (suc count) x y m =
    let rest = suc (repe_cmpsb count (x + 1) (y + 1) m) in if m x == m y then rest else 1

pub memcmp : ℕ → ℕ → ℕ → Bytes → ℤ
memcmp a b n m =
    let compared = repe_cmpsb n a b m in
    if n == 0 then pos 0 else sub_ℕ (m (a + compared - 1)) (m (b + compared - 1))
