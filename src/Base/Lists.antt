-- ===== src/Base/Lists.antt =====
-- Predicates that hold on a whole list, as tuples, and an element that moves through a list.
use Prim.Native.Nat.{ℕ, suc}
use mathlib.Core.Path.{◌≡◌, refl, sym, ap}
use mathlib.Core.Logic.{◌≢◌, ◌⊎◌, inl, inr}
use mathlib.Core.List.{List, [], ◌∷◌, ◌++◌}
use native.Mathlib.Omega.{arith}
use xenon_os.Base.Arrays.{length}
use xenon_os.Base.Distinct.{Distinct, NotIn}

abbrev pub All {ℓ} : {A : Type ℓ} → (A → Type 0) → List A → Type 0
All P [] = Unit {0}
All P (x ∷ xs) = P x × All P xs

module _ {ℓ} {A : Type ℓ} (P : A → Type 0) where
  pub All-map : {Q : A → Type 0} (xs : List A) → ((x : A) → P x → Q x) → All P xs → All Q xs
  All-map [] f a = tt
  All-map (x ∷ xs) f a = (f x a.0, All-map xs f a.1)

  pub All-append : (xs ys : List A) → All P xs → All P ys → All P (xs ++ ys)
  All-append [] ys a b = b
  All-append (x ∷ xs) ys a b = (a.0, All-append xs ys a.1 b)

  pub All-left : (xs ys : List A) → All P (xs ++ ys) → All P xs
  All-left [] ys a = tt
  All-left (x ∷ xs) ys a = (a.0, All-left xs ys a.1)

  pub All-right : (xs ys : List A) → All P (xs ++ ys) → All P ys
  All-right [] ys a = a
  All-right (x ∷ xs) ys a = All-right xs ys a.1

  pub All-back : (x : A) (xs ys : List A) → P x → All P (xs ++ ys) → All P (xs ++ x ∷ ys)
  All-back x [] ys p a = (p, a)
  All-back x (y ∷ xs) ys p a = (a.0, All-back x xs ys p a.1)

  pub All-front : (x : A) (xs ys : List A) → All P (xs ++ x ∷ ys) → P x × All P (xs ++ ys)
  All-front x [] ys a = a
  All-front x (y ∷ xs) ys a = let rest = All-front x xs ys a.1 in (rest.0, (a.0, rest.1))

  pub All-replace :
      (x y : A) (xs ys : List A) → (P x → P y) → All P (xs ++ x ∷ ys) → All P (xs ++ y ∷ ys)
  All-replace x y [] ys f a = (f a.0, a.1)
  All-replace x y (z ∷ xs) ys f a = (a.0, All-replace x y xs ys f a.1)

  pub All-at : (x : A) (xs ys : List A) → All P (xs ++ x ∷ ys) → P x
  All-at x xs ys a = (All-front x xs ys a).0

pub List-cases {ℓ} :
    {A : Type ℓ} (xs : List A) → (xs ≡ []) ⊎ ((y : A) × (ys : List A) × (xs ≡ y ∷ ys))
List-cases [] = inl refl
List-cases (x ∷ xs) = inr (x, xs, refl)

pub append_assoc {ℓ} : {A : Type ℓ} (xs ys zs : List A) → (xs ++ ys) ++ zs ≡ xs ++ (ys ++ zs)
append_assoc [] ys zs = refl
append_assoc (x ∷ xs) ys zs = ap (λ r. x ∷ r) (append_assoc xs ys zs)

pub NotIn-back : (z x : ℕ) (xs ys : List ℕ) → z ≢ x → NotIn z (xs ++ ys) → NotIn z (xs ++ x ∷ ys)
NotIn-back z x [] ys p a = (p, a)
NotIn-back z x (y ∷ xs) ys p a = (a.0, NotIn-back z x xs ys p a.1)

pub NotIn-front : (z x : ℕ) (xs ys : List ℕ) → NotIn z (xs ++ x ∷ ys) → (z ≢ x) × NotIn z (xs ++ ys)
NotIn-front z x [] ys a = a
NotIn-front z x (y ∷ xs) ys a = let rest = NotIn-front z x xs ys a.1 in (rest.0, (a.0, rest.1))

-- The head of a list of distinct numbers moves to another place, and back.
pub Distinct-back : (x : ℕ) (xs ys : List ℕ) → Distinct (x ∷ xs ++ ys) → Distinct (xs ++ x ∷ ys)
Distinct-back x [] ys d = d
Distinct-back x (y ∷ xs) ys d =
    (NotIn-back y x xs ys (λ e. d.0.0 (sym e)) d.1.0, Distinct-back x xs ys (d.0.1, d.1.1))

pub Distinct-front : (x : ℕ) (xs ys : List ℕ) → Distinct (xs ++ x ∷ ys) → Distinct (x ∷ xs ++ ys)
Distinct-front x [] ys d = d
Distinct-front x (y ∷ xs) ys d =
    let rest = Distinct-front x xs ys d.1 in
    let head = NotIn-front y x xs ys d.0 in (((λ e. head.0 (sym e)), rest.0), (head.1, rest.1))

pub length-front {ℓ} :
    {A : Type ℓ} (x : A) (xs ys : List A) → length (xs ++ x ∷ ys) ≡ suc (length (xs ++ ys))
length-front x [] ys = refl
length-front x (y ∷ xs) ys = omega (arith, length-front x xs ys)
