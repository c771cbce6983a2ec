-- ===== src/Text/Tests.antt =====
-- Runs of itoa and itoa_hex of src/utils/string.c, and the theorems at concrete values.
use xenon_os.Base.{List, ℕ, ◌≡◌, refl, [], ◌∷◌}
use xenon_os.Text.{itoa, itoa_hex, digit_loop, decimal_digit, hex_digit}
use xenon_os.Base.{pos}
use xenon_os.Text.{strcmp}
use xenon_os.Text.Digits.{number_of, decimal_value, number_of-itoa}

itoa-1024 : itoa 1024 ≡ b'1' ∷ b'0' ∷ b'2' ∷ b'4' ∷ []
unfolding itoa digit_loop decimal_digit
itoa-1024 = refl

itoa_hex-dead : itoa_hex 0xdead ≡ b'0' ∷ b'x' ∷ b'd' ∷ b'e' ∷ b'a' ∷ b'd' ∷ []
unfolding itoa_hex digit_loop hex_digit
itoa_hex-dead = refl

number_of-itoa_example : number_of 10 decimal_value 0 (itoa 4294967295) ≡ 4294967295
number_of-itoa_example = number_of-itoa 4294967295

abbrev exit_word : List ℕ
exit_word = b'e' ∷ b'x' ∷ b'i' ∷ b't' ∷ []

abbrev echo_word : List ℕ
echo_word = b'e' ∷ b'c' ∷ b'h' ∷ b'o' ∷ []

strcmp_echo : strcmp exit_word echo_word ≡ pos 21
unfolding strcmp
strcmp_echo = refl
