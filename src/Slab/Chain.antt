-- ===== src/Slab/Chain.antt =====
-- The list of slabs of a cache: a change to one slab, and the unlinking of one.
use xenon_os.Base.{
  ℕ, ◌+◌, ◌≤◌, ◌≡◌, ◌≢◌, ◌⊎◌, refl, ap, ◌∙◌, arith, List, [], ◌∷◌, ◌++◌, subst, sym,
}
use xenon_os.Base.Distinct.{Distinct, NotIn}
use xenon_os.Base.Lists.{All, All-right, NotIn-front}
use xenon_os.Memory.{Bytes, load32}
use xenon_os.Slab.Layout.{View, IsSlab, Same, IsFrame, Chain, frames, IsSlab-kept}
use xenon_os.Slab.Objects.{Keeps}

abbrev pub Placed : ℕ → List View → Type 0
Placed cache vs = All (λ v. IsFrame cache v.frame) vs

abbrev pub SamePage : Bytes → Bytes → View → Type 0
SamePage m m' v = Same m m' v.frame (v.frame + 4096)

-- The four bytes at `a` lie in none of the slabs.
abbrev pub Outside : ℕ → List View → Type 0
Outside a vs = All (λ v. (a + 4 ≤ v.frame) ⊎ (v.frame + 4096 ≤ a)) vs

pub frames-append : (xs ys : List View) → frames (xs ++ ys) ≡ frames xs ++ frames ys
frames-append [] ys = refl
frames-append (x ∷ xs) ys = ap (λ r. x.frame ∷ r) (frames-append xs ys)

pages_apart :
    (cache f g : ℕ) → IsFrame cache f → IsFrame cache g → f ≢ g → (f + 4096 ≤ g) ⊎ (g + 4096 ≤ f)
pages_apart cache f g p q ne = omega (arith, p.aligned, q.aligned, ne)

-- A word of one page lies outside of the slabs in other pages.
pub in_page-Outside :
    (cache f a : ℕ) (vs : List View)
    → IsFrame cache f
    → f ≤ a
    → a + 4 ≤ f + 4096
    → Placed cache vs
    → NotIn f (frames vs)
    → Outside a vs
in_page-Outside cache f a [] p low high places n = tt
in_page-Outside cache f a (v ∷ vs) p low high places n = (
  omega (arith, pages_apart cache f v.frame p places.0 n.0),
  in_page-Outside cache f a vs p low high places.1 n.1,
)

pub Chain-kept :
    (m m' : Bytes) (cache size p : ℕ) (vs : List View)
    → 4 ≤ size
    → All (SamePage m m') vs
    → Chain m cache size p vs
    → Chain m' cache size p vs
Chain-kept m m' cache size p [] big same chain = chain
Chain-kept m m' cache size p (v ∷ vs) big same chain = (
  chain.0,
  IsSlab-kept m m' cache size v big (λ a low high. same.0 a (omega arith) high) chain.1,
  subst (λ (q : ℕ). Chain m' cache size q vs) (sym (same.0 v.frame (omega arith) (omega arith)))
      (Chain-kept m m' cache size (load32 m v.frame) vs big same.1 chain.2),
)

-- A change inside one page spares the slabs in other pages.
pub others-SamePage :
    (m m' : Bytes) (cache g : ℕ) (vs : List View)
    → IsFrame cache g
    → Placed cache vs
    → NotIn g (frames vs)
    → ((a : ℕ) → (a + 4 ≤ g) ⊎ (g + 4096 ≤ a) → load32 m' a ≡ load32 m a)
    → All (SamePage m m') vs
others-SamePage m m' cache g [] p places n kept = tt
others-SamePage m m' cache g (v ∷ vs) p places n kept = (
  λ a low high. kept a (omega (arith, pages_apart cache g v.frame p places.0 n.0)),
  others-SamePage m m' cache g vs p places.1 n.1 kept,
)

-- The list follows a change to the objects of one slab.
pub Chain-change :
    (m m' : Bytes) (cache size p : ℕ) (before : List View) (v v' : View) (after : List View)
    → 4 ≤ size
    → v'.frame ≡ v.frame
    → Keeps v.frame m m'
    → IsSlab m' cache size v'
    → Placed cache (before ++ v ∷ after)
    → Distinct (frames (before ++ v ∷ after))
    → Chain m cache size p (before ++ v ∷ after)
    → Chain m' cache size p (before ++ v' ∷ after)
Chain-change m m' cache size p [] v v' after big e kept slab places d chain = (
  chain.0 ∙ sym e,
  slab,
  subst (λ (q : ℕ). Chain m' cache size q after)
      (sym (ap (λ (q : ℕ). load32 m' q) e ∙ kept v.frame (omega arith)))
      (Chain-kept m m' cache size (load32 m v.frame) after big
        (others-SamePage m m' cache v.frame after places.0 places.1 d.0
          (λ a h. kept a (omega (arith, h))))
        chain.2),
)
Chain-change m m' cache size p (u ∷ before) v v' after big e kept slab places d chain =
    let apart =
      NotIn-front u.frame v.frame (frames before) (frames after)
        (subst (NotIn u.frame) (frames-append before (v ∷ after)) d.0) in
    let placed = All-right (λ w. IsFrame cache w.frame) before (v ∷ after) places.1 in
    let same : SamePage m m' u = λ a low high.
      kept a (omega (arith, pages_apart cache u.frame v.frame places.0 placed.0 apart.0)) in
    (
      chain.0,
      IsSlab-kept m m' cache size u big (λ a low high. same a (omega arith) high) chain.1,
      subst (λ (q : ℕ). Chain m' cache size q (before ++ v' ∷ after))
          (sym (same u.frame (omega arith) (omega arith)))
          (Chain-change m m' cache size (load32 m u.frame) before v v' after big e kept slab
            places.1 d.1 chain.2),
    )
