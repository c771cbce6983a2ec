-- ===== src/Slab/Layout.antt =====
-- What the words of a cache stand for: a list of slabs, each with its free and its live objects.
use xenon_os.Base.{
  ℕ, ◌+◌, ◌*◌, ◌/◌, ◌^◌, ◌≤◌, ◌<◌, ◌≡◌, ◌≢◌, ◌⊎◌, inl, inr, ap, ◌∙◌, arith, List, [], ◌∷◌, ◌++◌,
  length, subst, sym, dec_lt,
}
use native.Mathlib.Nat.{mul-le-mul_right, div-mul-le_self}
use xenon_os.Base.Distinct.{Distinct}
use xenon_os.Base.Lists.{All, All-map, All-left}
use xenon_os.Memory.{Bytes, load32}

-- A slab in the frame at the address `frame`, with the free objects in the order of its free list.
pub record View : Type 0 where
  pub frame : ℕ
  pub free : List ℕ
  pub live : List ℕ

-- How many objects of `size` bytes fit behind the header.
abbrev pub room : ℕ → ℕ
room size = 4076 / size

abbrev pub IsObject : ℕ → ℕ → ℕ → Type 0
IsObject size frame x = (i : ℕ) × (i < room size) × (x ≡ frame + 20 + i * size)

-- The first words of the objects lead from `p` through `xs` to NULL.
abbrev pub Links : Bytes → ℕ → List ℕ → Type 0
Links m p [] = p ≡ 0
Links m p (x ∷ xs) = (p ≡ x) × Links m (load32 m x) xs

-- The header and the objects of one slab, without the words `next` and `capacity`.
pub record HasObjects (m : Bytes) (cache size : ℕ) (v : View) : Type 0 where
  pub owner : load32 m (v.frame + 4) ≡ cache
  pub links : Links m (load32 m (v.frame + 8)) v.free
  pub count : load32 m (v.frame + 12) ≡ length v.free
  pub objects : All (IsObject size v.frame) (v.free ++ v.live)
  pub distinct : Distinct (v.free ++ v.live)
  pub total : length v.free + length v.live ≡ room size

abbrev pub IsSlab : Bytes → ℕ → ℕ → View → Type 0
IsSlab m cache size v = HasObjects m cache size v × (load32 m (v.frame + 16) ≡ room size)

-- The words `next` lead from `p` through the slabs to NULL.
abbrev pub Chain : Bytes → ℕ → ℕ → ℕ → List View → Type 0
Chain m cache size p [] = p ≡ 0
Chain m cache size p (v ∷ vs) =
    (p ≡ v.frame) × IsSlab m cache size v × Chain m cache size (load32 m v.frame) vs

abbrev pub frames : List View → List ℕ
frames [] = []
frames (v ∷ vs) = v.frame ∷ frames vs

-- A page of the address space, apart from NULL and from the cache.
pub record IsFrame (cache frame : ℕ) : Type 0 where
  pub page : ℕ
  pub aligned : frame ≡ page * 4096
  pub below : page < 2 ^ 20
  pub proper : page ≢ 0
  pub apart : (cache + 8 ≤ frame) ⊎ (frame + 4096 ≤ cache)

-- The words that lie in the range read the same.
abbrev pub Same : Bytes → Bytes → ℕ → ℕ → Type 0
Same m m' low high = (a : ℕ) → low ≤ a → a + 4 ≤ high → load32 m' a ≡ load32 m a

-- An object lies behind the header, inside the page.
pub object-bounds :
    (size frame x : ℕ)
    → 4 ≤ size
    → IsObject size frame x
    → (frame + 20 ≤ x) × (x + size ≤ frame + 4096)
object-bounds size frame x h (i, lt, e) =
    let below : (i + 1) * size ≤ 4076 = omega (
      arith,
      mul-le-mul_right {m = i + 1} {n = room size} size (omega arith),
      div-mul-le_self 4076 size,
    ) in
    (omega (arith, e), omega (arith, e, below))

-- Two objects do not overlap.
pub object-apart :
    (size frame x y : ℕ)
    → IsObject size frame x
    → IsObject size frame y
    → x ≢ y
    → (x + size ≤ y) ⊎ (y + size ≤ x)
object-apart size frame x y (i, _, e) (j, _, e') ne = elim (dec_lt i j) [
  | yes before ↦ inl (omega (arith, e, e', mul-le-mul_right {m = i + 1} {n = j} size (omega arith)))
  | no not_before ↦ elim (dec_lt j i) [
    | yes after ↦
        inr (omega (arith, e, e', mul-le-mul_right {m = j + 1} {n = i} size (omega arith)))
    | no not_after ↦
        let same : i ≡ j = omega arith in
        absurd (ne (e ∙ ap (λ (k : ℕ). frame + 20 + k * size) same ∙ sym e'))
  ]
]

pub Links-kept :
    (m m' : Bytes) (p : ℕ) (xs : List ℕ)
    → Links m p xs
    → All (λ x. load32 m' x ≡ load32 m x) xs
    → Links m' p xs
Links-kept m m' p [] l a = l
Links-kept m m' p (x ∷ xs) l a =
    (l.0, Links-kept m m' (load32 m' x) xs (subst (λ (q : ℕ). Links m q xs) (sym a.0) l.1) a.1)

-- A link is an address, or NULL.
pub Links-lt :
    (m : Bytes) (size frame p : ℕ) (xs : List ℕ)
    → 4 ≤ size
    → frame + 4096 ≤ 2 ^ 32
    → All (IsObject size frame) xs
    → Links m p xs
    → p < 2 ^ 32
Links-lt m size frame p [] h b a l = omega (arith, l)
Links-lt m size frame p (x ∷ xs) h b a l = omega (arith, l.0, object-bounds size frame x h a.0)

-- The free list does not move while the first words of the objects stay.
pub Links-objects :
    (m m' : Bytes) (size frame p : ℕ) (xs : List ℕ)
    → 4 ≤ size
    → All (IsObject size frame) xs
    → Same m m' (frame + 20) (frame + 4096)
    → Links m p xs
    → Links m' p xs
Links-objects m m' size frame p xs h a same l = Links-kept m m' p xs l (
    All-map (IsObject size frame) xs
      (λ x o. let b = object-bounds size frame x h o in same x b.0 (omega (arith, b.1))) a)

-- A slab does not change with the words of other pages, nor with its word `next`.
pub HasObjects-kept :
    (m m' : Bytes) (cache size : ℕ) (v : View)
    → 4 ≤ size
    → Same m m' (v.frame + 4) (v.frame + 16)
    → Same m m' (v.frame + 20) (v.frame + 4096)
    → HasObjects m cache size v
    → HasObjects m' cache size v
HasObjects-kept m m' cache size v big header rest slab =
    let head = header (v.frame + 8) (omega arith) (omega arith) in
    record {
      owner = header (v.frame + 4) (omega arith) (omega arith) ∙ slab.owner;
      links =
          subst (λ (p : ℕ). Links m' p v.free) (sym head)
            (Links-objects m m' size v.frame (load32 m (v.frame + 8)) v.free big
              (All-left (IsObject size v.frame) v.free v.live slab.objects) rest slab.links);
      count = header (v.frame + 12) (omega arith) (omega arith) ∙ slab.count;
      objects = slab.objects;
      distinct = slab.distinct;
      total = slab.total;
    }

pub IsSlab-kept :
    (m m' : Bytes) (cache size : ℕ) (v : View)
    → 4 ≤ size
    → Same m m' (v.frame + 4) (v.frame + 4096)
    → IsSlab m cache size v
    → IsSlab m' cache size v
IsSlab-kept m m' cache size v big same slab = (
  HasObjects-kept m m' cache size v big (λ a low high. same a low (omega arith))
      (λ a low high. same a (omega arith) high) slab.0,
  same (v.frame + 16) (omega arith) (omega arith) ∙ slab.1,
)
