-- ===== src/Text/Digits.antt =====
-- What the digits that itoa and itoa_hex print stand for, and how many there are.
use native.Mathlib.Nat.{pow-zero, pow-suc, mod-lt, div-add-mod', div-lt_self, div-lt_iff_lt-mul}
use xenon_os.Base.{
  ℕ, zero, suc, ◌+◌, ◌-◌, ◌*◌, ◌/◌, ◌%◌, ◌^◌, ◌≤◌, ◌<◌, ◌≡◌, refl, List, [], ◌∷◌, ◌==◌, ltb,
  if◌then◌else◌, arith, length, ap, ◌∙◌, Bool-cases, inl, inr,
}
use xenon_os.Text.{digit_loop, decimal_digit, hex_digit, itoa, itoa_hex}

-- The number that a sequence of digits denotes, after digits worth `acc`.
pub number_of : ℕ → (ℕ → ℕ) → ℕ → List ℕ → ℕ
number_of base undigit acc [] = acc
number_of base undigit acc (c ∷ cs) = number_of base undigit (acc * base + undigit c) cs

pub decimal_value : ℕ → ℕ
decimal_value c = c - b'0'

pub hex_value : ℕ → ℕ
hex_value c = if ltb c b'a' then c - b'0' else c - b'a' + 10

module _ (base : ℕ) (digit undigit : ℕ → ℕ) (inverse : (d : ℕ) → d < base → undigit (digit d) ≡ d)
    (two : 1 < base) where
  step_back : (value : ℕ) → 0 < value → value / base * base + undigit (digit (value % base)) ≡ value
  step_back value pos =
      omega (arith, inverse (value % base) (mod-lt value (omega arith)), div-add-mod' value base)

  number_of-digit_loop :
      (fuel value : ℕ) (temp : List ℕ)
      → value ≤ fuel
      → number_of base undigit 0 (digit_loop base digit fuel value temp)
        ≡ number_of base undigit value temp
  unfolding number_of digit_loop
  number_of-digit_loop zero value temp h =
      ap (λ (v : ℕ). number_of base undigit v temp) (omega arith)
  number_of-digit_loop (suc fuel) value temp h = elim (Bool-cases (value == 0)) [
    | inl z ↦ rw z (ap (λ (v : ℕ). number_of base undigit v temp) (ground arith))
    | inr nz ↦
        let pos : 0 < value = ground arith in
        let smaller : value / base ≤ fuel = omega (arith, div-lt_self pos two) in
        rw nz (
          number_of-digit_loop fuel (value / base) (digit (value % base) ∷ temp) smaller
          ∙ ap (λ (v : ℕ). number_of base undigit v temp) (step_back value pos))
  ]

length-digit_loop :
    (base : ℕ) (digit : ℕ → ℕ) (k fuel value : ℕ) (temp : List ℕ)
    → 0 < base
    → value < base ^ k
    → length (digit_loop base digit fuel value temp) ≤ k + length temp
unfolding digit_loop
length-digit_loop base digit k zero value temp pos h = omega arith
length-digit_loop base digit zero (suc fuel) value temp pos h =
    let z : value ≡ 0 = omega (arith, pow-zero base) in rw z (omega arith)
length-digit_loop base digit (suc k) (suc fuel) value temp pos h = elim (Bool-cases (value == 0)) [
  | inl z ↦ rw z (omega arith)
  | inr nz ↦
      let below : value / base < base ^ k = (div-lt_iff_lt-mul pos).1 (rw (← pow-suc base k) h) in
      rw nz (
        omega (
          arith,
          length-digit_loop base digit k fuel (value / base) (digit (value % base) ∷ temp) pos
              below,
        ))
]

decimal_value-digit : (d : ℕ) → d < 10 → decimal_value (decimal_digit d) ≡ d
unfolding decimal_value decimal_digit
decimal_value-digit d h = omega arith

hex_value-digit : (d : ℕ) → d < 16 → hex_value (hex_digit d) ≡ d
unfolding hex_value hex_digit
hex_value-digit d h = ground arith

-- Reading back the decimal digits that itoa prints gives the value, for every value.
pub number_of-itoa : (value : ℕ) → number_of 10 decimal_value 0 (itoa value) ≡ value
unfolding itoa
number_of-itoa value = elim (Bool-cases (value == 0)) [
  | inl z ↦ rw z (unfold number_of decimal_value in ground arith)
  | inr nz ↦ rw nz (
      number_of-digit_loop 10 decimal_digit decimal_value decimal_value-digit (omega arith) value
        value [] (omega arith)
      ∙ unfold number_of in refl)
]

-- The digits after "0x".
abbrev pub hex_part : List ℕ → List ℕ
hex_part (a ∷ b ∷ digits) = digits
hex_part _ = []

-- Reading back the hexadecimal digits that itoa_hex prints after "0x" gives the value.
pub number_of-itoa_hex : (value : ℕ) → number_of 16 hex_value 0 (hex_part (itoa_hex value)) ≡ value
unfolding itoa_hex
number_of-itoa_hex value = elim (Bool-cases (value == 0)) [
  | inl z ↦ rw z (unfold number_of hex_value in ground arith)
  | inr nz ↦ rw nz (
      number_of-digit_loop 16 hex_digit hex_value hex_value-digit (omega arith) value value []
        (omega arith)
      ∙ unfold number_of in refl)
]

-- For a 32-bit value, itoa writes at most 10 digits and itoa_hex at most 10 bytes, so that with the
-- final NUL both fit the 12- and 16-byte buffers of the callers, and temp[16] and temp[8] hold the
-- digits.
pub length-itoa :
    (value : ℕ) → value < 2 ^ 32 → (length (itoa value) ≤ 10) × (length (itoa_hex value) ≤ 2 + 8)
unfolding itoa itoa_hex
length-itoa value h =
    let dec = length-digit_loop 10 decimal_digit 10 value value [] (omega arith) (omega arith) in
    let hex = length-digit_loop 16 hex_digit 8 value value [] (omega arith) (omega arith) in
    elim (Bool-cases (value == 0)) [
      | inl z ↦ rw z (omega arith)
      | inr nz ↦ rw nz (omega (arith, dec, hex))
    ]
