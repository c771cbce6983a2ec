-- ===== src/Heap/Dispatch.antt =====
-- kmalloc and kfree: which cache a request goes to, and what a pointer is freed by.
use xenon_os.Base.{
  some, ℕ, ◌*◌, ◌%◌, ◌<◌, ◌≤◌, ◌≡◌, ◌⊎◌, refl, false, ◌==◌, arith, ap, inl, inr, dec_lt, List, [],
  ◌∷◌, ◌++◌,
}
use xenon_os.Base.Lists.{All-at}
use xenon_os.Memory.{load32, Bytes}
use xenon_os.Slab.{load, slab_free}
use xenon_os.Slab.Layout.{View, Chain, IsFrame}
use xenon_os.Slab.Chain.{Placed}
use xenon_os.Slab.Invariant.{IsCache, Chain-at}
use xenon_os.Slab.Free.{owner_page}
use xenon_os.Heap.{Heap, kmalloc, kmalloc_small, kmalloc_large, kfree, large_alloc_magic}
use mathlib.Core.Option

-- A request of up to 2048 bytes goes to the cache with the smallest objects that hold it: of 16 bytes,
-- or of less than twice the request.
pub kmalloc-cache :
    (fuel : ℕ) (caches : ℕ → ℕ) (size : ℕ) (h : Heap)
    → size ≤ 2048
    → (bin : ℕ) × (kmalloc fuel caches size h ≡ kmalloc_small fuel (caches bin) h)
      × (size ≤ bin)
      × (bin ≤ 2048)
      × ((bin ≡ 16) ⊎ (bin < 2 * size))
unfolding kmalloc
kmalloc-cache fuel caches size h small = elim (dec_lt 16 size) [
  | no a ↦ (16, ground arith, omega arith, omega arith, inl refl)
  | yes a ↦ elim (dec_lt 32 size) [
    | no b ↦ (32, ground arith, omega arith, omega arith, inr (omega arith))
    | yes b ↦ elim (dec_lt 64 size) [
      | no c ↦ (64, ground arith, omega arith, omega arith, inr (omega arith))
      | yes c ↦ elim (dec_lt 128 size) [
        | no d ↦ (128, ground arith, omega arith, omega arith, inr (omega arith))
        | yes d ↦ elim (dec_lt 256 size) [
          | no e ↦ (256, ground arith, omega arith, omega arith, inr (omega arith))
          | yes e ↦ elim (dec_lt 512 size) [
            | no f ↦ (512, ground arith, omega arith, omega arith, inr (omega arith))
            | yes f ↦ elim (dec_lt 1024 size) [
              | no g ↦ (1024, ground arith, omega arith, omega arith, inr (omega arith))
              | yes g ↦ (2048, ground arith, omega arith, omega arith, inr (omega arith))
            ]
          ]
        ]
      ]
    ]
  ]
]

pub kmalloc-large :
    (fuel : ℕ) (caches : ℕ → ℕ) (size : ℕ) (h : Heap)
    → 2048 < size
    → kmalloc fuel caches size h ≡ some (kmalloc_large size h)
unfolding kmalloc
kmalloc-large fuel caches size h big = ground arith

-- The word `next` of a slab is a page address, or NULL.
next-aligned :
    (m : Bytes) (cache size p : ℕ) (before : List View) (v : View) (after : List View)
    → Placed cache (before ++ v ∷ after)
    → Chain m cache size p (before ++ v ∷ after)
    → load32 m v.frame % 4096 ≡ 0
next-aligned m cache size p [] v [] places chain = omega (arith, chain)
next-aligned m cache size p [] v (u ∷ after) places chain =
    omega (arith, chain.2.0, places.1.0.aligned)
next-aligned m cache size p (u ∷ before) v after places chain =
    next-aligned m cache size (load32 m u.frame) before v after places.1 chain.2

-- kfree of a live object of a cache is slab_free with this cache.
pub kfree-slab :
    (fuel cache size : ℕ) (h : Heap) (before : List View) (v : View) (after : List View)
    (l l' : List ℕ) (x : ℕ)
    → 4 ≤ size
    → v.live ≡ l ++ x ∷ l'
    → IsCache cache size h.space (before ++ v ∷ after)
    → kfree fuel x h ≡ Option.map (λ s. record h { space = s }) (slab_free fuel cache x h.space)
unfolding kfree
kfree-slab fuel cache size h before v after l l' x big held cached =
    let page = owner_page cache size h.space before v after l l' x big held cached.0 in
    let place = All-at (λ u. IsFrame cache u.frame) v before after cached.0.places in
    let slab = Chain-at h.space.memory cache size _ before v after cached.0.chain in
    let aligned =
      next-aligned h.space.memory cache size _ before v after cached.0.places cached.0.chain in
    let real : (x == 0) ≡ false = ground (arith, page, place.aligned, place.proper) in
    let small : (load v.frame h.space == large_alloc_magic) ≡ false = ground (arith, aligned) in
    rw (real, page, small, kfree)
      (ap (λ (c : ℕ). Option.map (λ s. record h { space = s }) (slab_free fuel c x h.space))
        slab.0.owner)
