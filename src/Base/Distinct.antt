-- ===== src/Base/Distinct.antt =====
-- Lists of distinct numbers, as predicates that compute to tuples.
use Prim.Native.Nat.{ℕ, ◌≤◌, ◌<◌}
use mathlib.Core.Bool.{Bool, true, ◌&&◌}
use native.Mathlib.Omega.{arith}
use xenon_os.Base.Tests.{ltb}
use mathlib.Core.Path.{◌≡◌, sym}
use mathlib.Core.Logic.{◌≢◌}
use mathlib.Core.List.{List, [], ◌∷◌, ◌++◌}

abbrev pub NotIn : ℕ → List ℕ → Type 0
NotIn x [] = Unit {0}
NotIn x (y ∷ ys) = (x ≢ y) × NotIn x ys

abbrev pub Distinct : List ℕ → Type 0
Distinct [] = Unit {0}
Distinct (x ∷ xs) = NotIn x xs × Distinct xs

-- No element in common.
abbrev pub Apart : List ℕ → List ℕ → Type 0
Apart [] ys = Unit {0}
Apart (x ∷ xs) ys = NotIn x ys × Apart xs ys

pub NotIn-append : (x : ℕ) (xs ys : List ℕ) → NotIn x xs → NotIn x ys → NotIn x (xs ++ ys)
NotIn-append x [] ys p q = q
NotIn-append x (z ∷ xs) ys p q = (p.0, NotIn-append x xs ys p.1 q)

pub NotIn-append_left : (x : ℕ) (xs ys : List ℕ) → NotIn x (xs ++ ys) → NotIn x xs
NotIn-append_left x [] ys p = tt
NotIn-append_left x (z ∷ xs) ys p = (p.0, NotIn-append_left x xs ys p.1)

pub NotIn-append_right : (x : ℕ) (xs ys : List ℕ) → NotIn x (xs ++ ys) → NotIn x ys
NotIn-append_right x [] ys p = p
NotIn-append_right x (z ∷ xs) ys p = NotIn-append_right x xs ys p.1

Apart-nil : (xs : List ℕ) → Apart xs []
Apart-nil [] = tt
Apart-nil (x ∷ xs) = (tt, Apart-nil xs)

Apart-cons : (xs ys : List ℕ) (y : ℕ) → NotIn y xs → Apart xs ys → Apart xs (y ∷ ys)
Apart-cons [] ys y n a = tt
Apart-cons (x ∷ xs) ys y n a = ((λ e. n.0 (sym e), a.0), Apart-cons xs ys y n.1 a.1)

pub Apart-sym : (xs ys : List ℕ) → Apart xs ys → Apart ys xs
Apart-sym [] ys a = Apart-nil ys
Apart-sym (x ∷ xs) ys a = Apart-cons ys xs x a.0 (Apart-sym xs ys a.1)

pub Distinct-append :
    (xs ys : List ℕ) → Distinct xs → Distinct ys → Apart xs ys → Distinct (xs ++ ys)
Distinct-append [] ys p q a = q
Distinct-append (x ∷ xs) ys p q a = (NotIn-append x xs ys p.0 a.0, Distinct-append xs ys p.1 q a.1)

pub Distinct-left : (xs ys : List ℕ) → Distinct (xs ++ ys) → Distinct xs
Distinct-left [] ys p = tt
Distinct-left (x ∷ xs) ys p = (NotIn-append_left x xs ys p.0, Distinct-left xs ys p.1)

pub Distinct-right : (xs ys : List ℕ) → Distinct (xs ++ ys) → Distinct ys
Distinct-right [] ys p = p
Distinct-right (x ∷ xs) ys p = Distinct-right xs ys p.1

pub Distinct-Apart : (xs ys : List ℕ) → Distinct (xs ++ ys) → Apart xs ys
Distinct-Apart [] ys p = tt
Distinct-Apart (x ∷ xs) ys p = (NotIn-append_right x xs ys p.0, Distinct-Apart xs ys p.1)

-- Distinctness does not depend on where a cycle is cut.
pub Distinct-rotate : (xs ys : List ℕ) → Distinct (xs ++ ys) → Distinct (ys ++ xs)
Distinct-rotate xs ys p =
    Distinct-append ys xs (Distinct-right xs ys p) (Distinct-left xs ys p)
      (Apart-sym xs ys (Distinct-Apart xs ys p))

-- A list that rises, as a test.
abbrev pub rising : ℕ → List ℕ → Bool
rising x [] = true
rising x (y ∷ ys) = ltb x y && rising y ys

rising-NotIn : (w x : ℕ) (ys : List ℕ) → w ≤ x → rising x ys ≡ true → NotIn w ys
rising-NotIn w x [] h r = tt
rising-NotIn w x (y ∷ ys) h r =
    let above : x < y = ground (arith, r) in
    (λ e. omega (arith, e), rising-NotIn w y ys (omega arith) (ground (arith, r)))

pub rising-Distinct : (x : ℕ) (ys : List ℕ) → rising x ys ≡ true → Distinct (x ∷ ys)
rising-Distinct x [] r = (tt, tt)
rising-Distinct x (y ∷ ys) r =
    (rising-NotIn x x (y ∷ ys) (omega arith) r, rising-Distinct y ys (ground (arith, r)))
