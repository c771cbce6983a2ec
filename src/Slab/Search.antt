-- ===== src/Slab/Search.antt =====
-- The search of slab_alloc for a slab that has a free object.
use xenon_os.Base.{
  ℕ, zero, suc, ◌<◌, ◌≡◌, ◌⊎◌, inl, inr, refl, ap, ◌∙◌, arith, List, [], ◌∷◌, ◌++◌, length, subst,
  sym, some, false, true, ◌==◌, ltb,
}
use xenon_os.Base.Lists.{All, List-cases}
use xenon_os.Slab.{AddressSpace, load, free_count, find_slab}
use xenon_os.Slab.Layout.{View, HasObjects, IsFrame, Chain}
use xenon_os.Slab.Chain.{Placed}

abbrev pub IsFull : View → Type 0
IsFull v = v.free ≡ []

-- The first slab with a free object splits the list.
pub first_free :
    (vs : List View)
    → All IsFull vs
      ⊎ ((before : List View) × (v : View) × (after : List View) × (x : ℕ) × (xs : List ℕ) × (vs
            ≡ before ++ v ∷ after)
          × (v.free ≡ x ∷ xs)
          × All IsFull before)
first_free [] = inl tt
first_free (v ∷ vs) = elim (List-cases v.free) [
  | inr (x, xs, some_free) ↦ inr ([], v, vs, x, xs, refl, some_free, tt)
  | inl full ↦ elim (first_free vs) [
    | inl all_full ↦ inl (full, all_full)
    | inr (before, u, after, x, xs, e, some_free, all_full) ↦
        inr (v ∷ before, u, after, x, xs, ap (λ r. v ∷ r) e, some_free, (full, all_full))
  ]
]

is_slab :
    (s : AddressSpace) (cache : ℕ) (v : View) (p : ℕ)
    → IsFrame cache v.frame
    → p ≡ v.frame
    → (p == 0) ≡ false
is_slab s cache v p place e = ground (arith, place.aligned, place.proper)

counted :
    (s : AddressSpace) (cache size : ℕ) (v : View) (p : ℕ)
    → p ≡ v.frame
    → HasObjects s.memory cache size v
    → load (free_count p) s ≡ length v.free
counted s cache size v p e slab = ap (λ (q : ℕ). load (free_count q) s) e ∙ slab.count

pub find_slab-none :
    (s : AddressSpace) (cache size : ℕ) (vs : List View) (fuel p : ℕ)
    → length vs < fuel
    → Placed cache vs
    → All IsFull vs
    → Chain s.memory cache size p vs
    → find_slab fuel p s ≡ some 0
unfolding find_slab
find_slab-none s cache size vs zero p enough places full chain = absurd (omega arith)
find_slab-none s cache size [] (suc fuel) p enough places full chain =
    let here : (p == 0) ≡ true = ground (arith, chain) in rw (here, find_slab) refl
find_slab-none s cache size (v ∷ vs) (suc fuel) p enough places full chain =
    let slab = is_slab s cache v p places.0 chain.0 in
    let none_free : ltb 0 (load (free_count p) s) ≡ false =
      ground (arith, counted s cache size v p chain.0 chain.1.0, ap length full.0) in
    rw (slab, none_free, find_slab)
      (subst (λ (q : ℕ). find_slab fuel (load q s) s ≡ some 0) (sym chain.0)
        (find_slab-none s cache size vs fuel _ (omega arith) places.1 full.1 chain.2))

pub find_slab-some :
    (s : AddressSpace) (cache size : ℕ) (before : List View) (v : View) (after : List View) (x : ℕ)
    (xs : List ℕ) (fuel p : ℕ)
    → length before < fuel
    → Placed cache (before ++ v ∷ after)
    → All IsFull before
    → v.free ≡ x ∷ xs
    → Chain s.memory cache size p (before ++ v ∷ after)
    → find_slab fuel p s ≡ some v.frame
unfolding find_slab
find_slab-some s cache size before v after x xs zero p enough places full free chain =
    absurd (omega arith)
find_slab-some s cache size [] v after x xs (suc fuel) p enough places full free chain =
    let slab = is_slab s cache v p places.0 chain.0 in
    let some_free : ltb 0 (load (free_count p) s) ≡ true =
      ground (arith, counted s cache size v p chain.0 chain.1.0, ap length free) in
    rw (slab, some_free, find_slab) (ap (λ (q : ℕ). some q) chain.0)
find_slab-some s cache size (u ∷ before) v after x xs (suc fuel) p enough places full free chain =
    let slab = is_slab s cache u p places.0 chain.0 in
    let none_free : ltb 0 (load (free_count p) s) ≡ false =
      ground (arith, counted s cache size u p chain.0 chain.1.0, ap length full.0) in
    rw (slab, none_free, find_slab)
      (subst (λ (q : ℕ). find_slab fuel (load q s) s ≡ some v.frame) (sym chain.0)
        (find_slab-some s cache size before v after x xs fuel _ (omega arith) places.1 full.1 free
          chain.2))
