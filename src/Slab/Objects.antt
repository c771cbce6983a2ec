-- ===== src/Slab/Objects.antt =====
-- slab_take and the push of slab_free, on the header and the free list of one slab.
use xenon_os.Base.{
  ℕ, suc, ◌+◌, ◌^◌, ◌≤◌, ◌<◌, ◌≡◌, ◌⊎◌, ap, ◌∙◌, arith, List, [], ◌∷◌, ◌++◌, length, subst, sym,
  add32, sub32,
}
use native.Mathlib.Nat.{div-le_self}
use xenon_os.Base.Distinct.{Distinct, NotIn, NotIn-append_left}
use xenon_os.Base.Lists.{
  All, All-left, All-right, All-back, All-front, Distinct-back, Distinct-front, append_assoc,
  length-front,
}
use xenon_os.Memory.{Bytes, load32}
use xenon_os.Memory.Words.{Apart32, load32-store32, load32-store32_apart}
use xenon_os.Slab.{AddressSpace, push_free, slab_take}
use xenon_os.Slab.Layout.{
  HasObjects, IsObject, Links, Links-kept, Links-lt, Links-objects, object-bounds, object-apart,
}

-- What a change to the objects of the slab in `frame` leaves: the words of other pages, and the
-- words `next`, `cache` and `capacity` of the header.
abbrev pub Keeps : ℕ → Bytes → Bytes → Type 0
Keeps frame m m' =
    (a : ℕ) → (a + 4 ≤ frame + 8) ⊎ (frame + 4096 ≤ a) ⊎ (a ≡ frame + 16) → load32 m' a ≡ load32 m a

module _ (s : AddressSpace) (cache size frame : ℕ) (big : 4 ≤ size)
    (fits : frame + 4096 ≤ 2 ^ 32) where
  module _ (x : ℕ) (xs live : List ℕ)
      (slab : HasObjects s.memory cache size
        (record { frame = frame; free = x ∷ xs; live = live })) where
    pub slab_take-object : (slab_take frame s).0 ≡ x
    unfolding slab_take
    slab_take-object = slab.links.0

    abbrev shorter : AddressSpace
    shorter = (slab_take frame s).1

    taken-apart :
        (a : ℕ)
        → Apart32 (frame + 8) a
        → Apart32 (frame + 12) a
        → load32 shorter.memory a ≡ load32 s.memory a
    unfolding slab_take
    taken-apart a p q = load32-store32_apart _ _ _ a q ∙ load32-store32_apart _ _ _ a p

    next_free-lt : load32 s.memory x < 2 ^ 32
    next_free-lt =
        Links-lt s.memory size frame (load32 s.memory x) xs big fits
          (All-left (IsObject size frame) xs live slab.objects.1) slab.links.1

    taken-head : load32 shorter.memory (frame + 8) ≡ load32 s.memory x
    unfolding slab_take
    taken-head =
        load32-store32_apart _ _ _ (frame + 8) (omega arith)
        ∙ load32-store32 s.memory (frame + 8) _
            (subst (λ (p : ℕ). load32 s.memory p < 2 ^ 32) (sym slab.links.0) next_free-lt)
        ∙ ap (λ (p : ℕ). load32 s.memory p) slab.links.0

    taken-count : load32 shorter.memory (frame + 12) ≡ length xs
    unfolding slab_take
    taken-count =
        load32-store32 _ (frame + 12) _ (omega arith)
        ∙ ap (λ (n : ℕ). sub32 n 1)
            (load32-store32_apart _ _ _ (frame + 12) (omega arith) ∙ slab.count)
        ∙ omega (arith, slab.total, div-le_self 4076 size)

    pub slab_take-HasObjects :
        HasObjects shorter.memory cache size (record { frame = frame; free = xs; live = x ∷ live })
    slab_take-HasObjects = record {
      owner = taken-apart (frame + 4) (omega arith) (omega arith) ∙ slab.owner;
      links =
          subst (λ (p : ℕ). Links shorter.memory p xs) (sym taken-head)
            (Links-objects s.memory shorter.memory size frame (load32 s.memory x) xs big
              (All-left (IsObject size frame) xs live slab.objects.1)
              (λ a low high. taken-apart a (omega arith) (omega arith)) slab.links.1);
      count = taken-count;
      objects = All-back (IsObject size frame) x xs live slab.objects.0 slab.objects.1;
      distinct = Distinct-back x xs live slab.distinct;
      total = omega (arith, slab.total);
    }

    pub slab_take-Keeps : Keeps frame s.memory (slab_take frame s).1.memory
    slab_take-Keeps a h = taken-apart a (omega (arith, h)) (omega (arith, h))

  module _ (x : ℕ) (free live live' : List ℕ)
      (slab : HasObjects s.memory cache size
        (record { frame = frame; free = free; live = live ++ x ∷ live' })) where
    abbrev pushed : AddressSpace
    pushed = push_free frame x s

    object : IsObject size frame x
    object =
        (All-front (IsObject size frame) x live live'
          (All-right (IsObject size frame) free (live ++ x ∷ live') slab.objects)).0

    bounds : (frame + 20 ≤ x) × (x + size ≤ frame + 4096)
    bounds = object-bounds size frame x big object

    pushed-apart :
        (a : ℕ)
        → Apart32 x a
        → Apart32 (frame + 8) a
        → Apart32 (frame + 12) a
        → load32 pushed.memory a ≡ load32 s.memory a
    unfolding push_free
    pushed-apart a o p q =
        load32-store32_apart _ _ _ a q
        ∙ load32-store32_apart _ _ _ a p
        ∙ load32-store32_apart _ _ _ a o

    split :
        All (IsObject size frame) (x ∷ free ++ (live ++ live'))
        × Distinct (x ∷ free ++ (live ++ live'))
    split =
        let whole = append_assoc free live (x ∷ live') in
        let parts = append_assoc free live live' in
        let all = subst (All (IsObject size frame)) (sym whole) slab.objects in
        let distinct = subst Distinct (sym whole) slab.distinct in
        subst (λ r. All (IsObject size frame) (x ∷ r) × Distinct (x ∷ r)) parts
          (
            All-front (IsObject size frame) x (free ++ live) live' all,
            Distinct-front x (free ++ live) live' distinct,
          )

    sizes : length (live ++ x ∷ live') ≡ suc (length (live ++ live'))
    sizes = length-front x live live'

    pushed-head : load32 pushed.memory (frame + 8) ≡ x
    unfolding push_free
    pushed-head =
        load32-store32_apart _ _ _ (frame + 8) (omega arith)
        ∙ load32-store32 _ (frame + 8) _ (omega (arith, bounds))

    pushed-count : load32 pushed.memory (frame + 12) ≡ suc (length free)
    unfolding push_free
    pushed-count =
        load32-store32 _ (frame + 12) _ (omega arith)
        ∙ ap (λ (n : ℕ). add32 n 1)
            (load32-store32_apart _ _ _ (frame + 12) (omega arith)
              ∙ load32-store32_apart _ _ _ (frame + 12) (omega (arith, bounds))
              ∙ slab.count)
        ∙ omega (arith, slab.total, sizes, div-le_self 4076 size)

    pushed-link : load32 pushed.memory x ≡ load32 s.memory (frame + 8)
    unfolding push_free
    pushed-link =
        load32-store32_apart _ _ _ x (omega (arith, bounds))
        ∙ load32-store32_apart _ _ _ x (omega (arith, bounds))
        ∙ load32-store32 _ x _ (
            Links-lt s.memory size frame _ free big fits
              (All-left (IsObject size frame) free (live ++ x ∷ live') slab.objects) slab.links)

    -- The links of the other objects do not change.
    others :
        (ys : List ℕ)
        → All (IsObject size frame) ys
        → NotIn x ys
        → All (λ y. load32 pushed.memory y ≡ load32 s.memory y) ys
    others [] a n = tt
    others (y ∷ ys) a n =
        let b = object-bounds size frame y big a.0 in
        (
          pushed-apart y (omega (arith, object-apart size frame x y object a.0 n.0))
              (omega (arith, b)) (omega (arith, b)),
          others ys a.1 n.1,
        )

    pub push_free-HasObjects :
        HasObjects pushed.memory cache size
          (record { frame = frame; free = x ∷ free; live = live ++ live' })
    push_free-HasObjects = record {
      owner =
          pushed-apart (frame + 4) (omega (arith, bounds)) (omega arith) (omega arith) ∙ slab.owner;
      links = (
        pushed-head,
        subst (λ (p : ℕ). Links pushed.memory p free) (sym pushed-link)
            (Links-kept s.memory pushed.memory _ free slab.links (
              others free (All-left (IsObject size frame) free (live ++ live') split.0.1)
                (NotIn-append_left x free (live ++ live') split.1.0))),
      );
      count = pushed-count;
      objects = split.0;
      distinct = split.1;
      total = omega (arith, slab.total, sizes);
    }

    pub push_free-Keeps : Keeps frame s.memory pushed.memory
    push_free-Keeps a h =
        pushed-apart a (omega (arith, bounds, h)) (omega (arith, h)) (omega (arith, h))
