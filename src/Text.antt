-- ===== src/Text.antt =====
-- src/utils/string.c: strcmp, strlen, itoa and itoa_hex. A C string is the list of the bytes before
-- its final NUL.
pub mod Digits
pub mod Order
mod Tests
use xenon_os.Base.{
  ℤ, sub_ℕ, ℕ, zero, suc, ◌+◌, ◌-◌, ◌/◌, ◌%◌, List, [], ◌∷◌, ◌==◌, ltb, if◌then◌else◌,
}

-- The loop `while (value > 0) { temp[i++] = …; value /= base; }`. `temp` is filled upwards and read
-- downwards, so it is the list of its cells from the last one down. The fuel bounds the value.
unfoldable pub digit_loop : ℕ → (ℕ → ℕ) → ℕ → ℕ → List ℕ → List ℕ
digit_loop base digit zero value temp = temp
digit_loop base digit (suc fuel) value temp =
    let rest = digit_loop base digit fuel (value / base) (digit (value % base) ∷ temp) in
    if value == 0 then temp else rest

unfoldable pub decimal_digit : ℕ → ℕ
decimal_digit d = b'0' + d

-- digits[], "0123456789abcdef"
unfoldable pub hex_digit : ℕ → ℕ
hex_digit d = if ltb d 10 then b'0' + d else b'a' + (d - 10)

unfoldable pub itoa : ℕ → List ℕ
itoa value = if value == 0 then b'0' ∷ [] else digit_loop 10 decimal_digit value value []

unfoldable pub itoa_hex : ℕ → List ℕ
itoa_hex value =
    b'0' ∷ b'x' ∷ (if value == 0 then b'0' ∷ [] else digit_loop 16 hex_digit value value [])

-- The byte that a pointer to the rest of a string shows: the NUL at the end.
abbrev pub first_byte : List ℕ → ℕ
first_byte [] = 0
first_byte (c ∷ rest) = c

-- The loop goes on while `*a && *a == *b`; behind it the difference of the bytes is returned.
unfoldable pub strcmp : List ℕ → List ℕ → ℤ
strcmp [] b = sub_ℕ 0 (first_byte b)
strcmp (x ∷ a) [] = sub_ℕ x 0
strcmp (x ∷ a) (y ∷ b) = if x == y then strcmp a b else sub_ℕ x y

-- The loop `while (str[length]) length++`.
pub strlen_from : ℕ → List ℕ → ℕ
strlen_from count [] = count
strlen_from count (c ∷ rest) = strlen_from (count + 1) rest

unfoldable pub strlen : List ℕ → ℕ
unfolding strlen_from
strlen str = strlen_from 0 str
