-- ===== src/Text/Order.antt =====
-- strcmp decides equality of strings and orders them by their bytes; strlen counts their bytes.
use mathlib.Core.Logic.{◌↔◌}
use xenon_os.Base.{
  ℕ, ◌+◌, ◌<◌, ◌≡◌, refl, ap₂, List, [], ◌∷◌, ◌==◌, arith, length, ℤ, pos, negsuc, sub_ℕ, inl, inr,
  Bool-cases,
}
use xenon_os.Text.{strcmp, strlen_from, strlen}

-- No byte is NUL.
abbrev pub IsString : List ℕ → Type 0
IsString [] = Unit {0}
IsString (c ∷ rest) = (0 < c) × IsString rest

strcmp_self : (s : List ℕ) → strcmp s s ≡ pos 0
unfolding strcmp
strcmp_self [] = refl
strcmp_self (c ∷ s) = ground (arith, strcmp_self s)

sub-eq-zero : (x y : ℕ) → sub_ℕ x y ≡ pos 0 → x ≡ y
sub-eq-zero x y e = ground arith

same_string : (a b : List ℕ) → IsString a → IsString b → strcmp a b ≡ pos 0 → a ≡ b
unfolding strcmp
same_string [] [] p q e = refl
same_string [] (y ∷ b) p q e = absurd (omega (arith, sub-eq-zero 0 y e))
same_string (x ∷ a) [] p q e = absurd (omega (arith, sub-eq-zero x 0 e))
same_string (x ∷ a) (y ∷ b) p q e = elim (Bool-cases (x == y)) [
  | inl eq ↦ ap₂ ◌∷◌ (ground arith) (same_string a b p.1 q.1 (rw (eq, strcmp) at e))
  | inr ne ↦
      let e' : sub_ℕ x y ≡ pos 0 = rw (ne, strcmp) at e in
      absurd (ground (arith, sub-eq-zero x y e'))
]

-- strcmp of two strings is zero exactly when they are the same.
pub strcmp-eq-zero : (a b : List ℕ) → IsString a → IsString b → (strcmp a b ≡ pos 0) ↔ (a ≡ b)
strcmp-eq-zero a b p q = (same_string a b p q, λ e. rw e (strcmp_self b))

-- The negative of an integer.
abbrev pub neg : ℤ → ℤ
neg (pos n) = sub_ℕ 0 n
neg (negsuc n) = pos (n + 1)

sub-neg : (x y : ℕ) → sub_ℕ y x ≡ neg (sub_ℕ x y)
sub-neg x y = ground arith

-- Exchanging the arguments of strcmp changes the sign of its result, and nothing else.
pub strcmp-neg : (a b : List ℕ) → strcmp b a ≡ neg (strcmp a b)
unfolding strcmp
strcmp-neg [] [] = refl
strcmp-neg [] (y ∷ b) = sub-neg 0 y
strcmp-neg (x ∷ a) [] = sub-neg x 0
strcmp-neg (x ∷ a) (y ∷ b) = ground (arith, strcmp-neg a b, sub-neg x y)

strlen_from-eq-add : (count : ℕ) (s : List ℕ) → strlen_from count s ≡ count + length s
unfolding strlen_from
strlen_from-eq-add count [] = omega arith
strlen_from-eq-add count (c ∷ s) = omega (arith, strlen_from-eq-add (count + 1) s)

-- strlen is the number of bytes before the NUL.
pub strlen-eq-length : (s : List ℕ) → strlen s ≡ length s
unfolding strlen
strlen-eq-length s = omega (arith, strlen_from-eq-add 0 s)
