-- ===== src/Slab/Unlink.antt =====
-- The search for the link to a slab, and what the list is without it.
use xenon_os.Base.{
  ℕ, zero, suc, ◌+◌, ◌^◌, ◌≤◌, ◌<◌, ◌≡◌, refl, ◌∙◌, arith, List, [], ◌∷◌, ◌++◌, length, subst, sym,
  some, false, true, ◌==◌,
}
use xenon_os.Base.Distinct.{Distinct, NotIn}
use xenon_os.Base.Lists.{All, All-map, NotIn-front}
use xenon_os.Memory.{Bytes, load32, store32}
use xenon_os.Memory.Words.{Apart32, load32-store32, load32-store32_apart}
use xenon_os.Slab.{AddressSpace, load, slabs, find_link}
use xenon_os.Slab.Layout.{View, IsFrame, Chain, frames, IsSlab-kept}
use xenon_os.Slab.Chain.{Placed, Outside, SamePage, frames-append, in_page-Outside, Chain-kept}

frame-lt : (cache f : ℕ) → IsFrame cache f → f + 4096 ≤ 2 ^ 32
frame-lt cache f p = omega (arith, p.aligned, p.below)

-- A link is the address of a slab, or NULL.
pub Chain-lt :
    (m : Bytes) (cache size p : ℕ) (vs : List View)
    → Placed cache vs
    → Chain m cache size p vs
    → p < 2 ^ 32
Chain-lt m cache size p [] places chain = omega (arith, chain)
Chain-lt m cache size p (v ∷ vs) places chain =
    omega (arith, chain.0, frame-lt cache v.frame places.0)

pub store32-SamePage :
    (m : Bytes) (link word : ℕ) (vs : List View)
    → Outside link vs
    → All (SamePage m (store32 m link word)) vs
store32-SamePage m link word [] o = tt
store32-SamePage m link word (v ∷ vs) o = (
  λ a low high. load32-store32_apart m link word a (omega (arith, o.0)),
  store32-SamePage m link word vs o.1,
)

-- The word `slabs` of a cache lies in none of its slabs.
pub slabs-Outside : (cache : ℕ) (vs : List View) → Placed cache vs → Outside (slabs cache) vs
slabs-Outside cache vs places =
    All-map (λ v. IsFrame cache v.frame) vs (λ v p. omega (arith, p.apart)) places

-- The loop finds the pointer to the slab, and the store through it takes the slab out of the list
-- and changes no word besides: `a` stands for such a word.
module _ (s : AddressSpace) (cache size : ℕ) (v : View) (after : List View) (big : 4 ≤ size) where
  abbrev cut : ℕ → Bytes
  cut l = store32 s.memory l (load32 s.memory v.frame)

  abbrev pub Found : ℕ → ℕ → List View → ℕ → Type 0
  Found fuel link before l =
      (find_link fuel link v.frame s ≡ some l)
      × Chain (cut l) cache size (load32 (cut l) link) (before ++ after)
      × ((a : ℕ)
          → Apart32 link a
          → Outside a (before ++ v ∷ after)
          → load32 (cut l) a ≡ load32 s.memory a)

  pub find_link_lem :
      (before : List View) (fuel link : ℕ)
      → length before < fuel
      → Outside link (before ++ v ∷ after)
      → Placed cache (before ++ v ∷ after)
      → Distinct (frames (before ++ v ∷ after))
      → Chain s.memory cache size (load link s) (before ++ v ∷ after)
      → (l : ℕ) × Found fuel link before l
  unfolding find_link
  find_link_lem before zero link enough out places d chain = absurd (omega arith)
  find_link_lem [] (suc fuel) link enough out places d chain =
      let here : (load link s == v.frame) ≡ true = ground (arith, chain.0) in
      let lt = Chain-lt s.memory cache size _ after places.1 chain.2 in
      (
        link,
        (
          rw (here, find_link) refl,
          subst (λ (q : ℕ). Chain (cut link) cache size q after)
              (sym (load32-store32 s.memory link _ lt))
              (Chain-kept s.memory (cut link) cache size _ after big
                (store32-SamePage s.memory link _ after out.1) chain.2),
          λ a p o. load32-store32_apart s.memory link _ a p,
        ),
      )
  find_link_lem (u ∷ before) (suc fuel) link enough out places d chain =
      let apart =
        NotIn-front u.frame v.frame (frames before) (frames after)
          (subst (NotIn u.frame) (frames-append before (v ∷ after)) d.0) in
      let here : (load link s == v.frame) ≡ false = ground (arith, chain.0, apart.0) in
      let inside = λ (a : ℕ) (low : u.frame ≤ a) (high : a + 4 ≤ u.frame + 4096).
        in_page-Outside cache u.frame a (before ++ v ∷ after) places.0 low high places.1 d.0 in
      let (l, (found, rest, kept)) =
        find_link_lem before fuel u.frame (omega arith) (inside u.frame (omega arith) (omega arith))
          places.1 d.1 chain.2 in
      (
        l,
        (
          rw (here, find_link)
              (subst (λ (q : ℕ). find_link fuel q v.frame s ≡ some l) (sym chain.0) found),
          (
            kept link (omega (arith, out.0)) out.1 ∙ chain.0,
            IsSlab-kept s.memory (cut l) cache size u big
                (λ a low high. kept a (omega arith) (inside a (omega arith) high)) chain.1,
            rest,
          ),
          λ a p o. kept a (omega (arith, o.0)) o.1,
        ),
      )
