-- ===== src/Heap/Init.antt =====
-- heap_initialize: the eight caches.
use xenon_os.Base.{
  Bool, true, ◌&&◌, leb, ℕ, ◌+◌, ◌^◌, ◌≤◌, ◌≡◌, ◌≢◌, ◌⊎◌, refl, arith, List, [], ◌∷◌, ltb,
  if◌then◌else◌, subst,
}
use xenon_os.Base.Lists.{All}
use xenon_os.Base.Distinct.{NotIn, Distinct, rising-Distinct}
use xenon_os.Pmm.Bounds
use xenon_os.Slab.{AddressSpace, slab_cache_init}
use xenon_os.Slab.Invariant.{IsCache}
use xenon_os.Slab.Init.{slab_cache_init_lem, slab_cache_init-other}
use xenon_os.Heap.{heap_initialize}

-- heap_initialize writes to memory only.
pub heap_initialize-paging :
    (caches : ℕ → ℕ) (s : AddressSpace) → (heap_initialize caches s).paging ≡ s.paging
unfolding heap_initialize slab_cache_init
heap_initialize-paging caches s = refl

abbrev pub bins : List ℕ
bins = 16 ∷ 32 ∷ 64 ∷ 128 ∷ 256 ∷ 512 ∷ 1024 ∷ 2048 ∷ []

abbrev all_fit : List ℕ → Bool
all_fit [] = true
all_fit (b ∷ bs) = (leb 4 b && ltb b (2 ^ 32)) && all_fit bs

module _ (caches : ℕ → ℕ)
    (apart : (a b : ℕ) → a ≢ b → (caches a + 8 ≤ caches b) ⊎ (caches b + 8 ≤ caches a)) where
  init_all : List ℕ → AddressSpace → AddressSpace
  init_all [] s = s
  init_all (b ∷ bs) s = init_all bs (slab_cache_init (caches b) b s)

  init_all-kept :
      (a : ℕ) (bs : List ℕ) (s : AddressSpace)
      → NotIn a bs
      → IsCache (caches a) a s []
      → IsCache (caches a) a (init_all bs s) []
  unfolding init_all
  init_all-kept a [] s n c = c
  init_all-kept a (b ∷ bs) s n c =
      init_all-kept a bs _ n.1 (slab_cache_init-other (caches a) a (caches b) b s (apart a b n.0) c)

  init_all_lem :
      (bs : List ℕ) (s : AddressSpace)
      → Distinct bs
      → all_fit bs ≡ true
      → Bounds.IsValid s.paging.pmm
      → All (λ b. IsCache (caches b) b (init_all bs s) []) bs
  unfolding init_all
  init_all_lem [] s d sizes v = tt
  init_all_lem (b ∷ bs) s d sizes v =
      let size : (if ltb b 4 then 4 else b) ≡ b = ground (arith, sizes) in
      let first : IsCache (caches b) b (slab_cache_init (caches b) b s) [] =
        subst (λ (n : ℕ). IsCache (caches b) n (slab_cache_init (caches b) b s) []) size
          (slab_cache_init_lem (caches b) b s (ground (arith, sizes)) v) in
      (
        init_all-kept b bs _ d.0 first,
        init_all_lem bs _ d.1 (ground (arith, sizes)) (first.0.allocator),
      )

  -- Where the caches do not overlap, each is a cache of objects of its size, without slabs, after
  -- heap_initialize.
  pub heap_initialize_lem :
      (s : AddressSpace)
      → Bounds.IsValid s.paging.pmm
      → All (λ b. IsCache (caches b) b (heap_initialize caches s) []) bins
  unfolding heap_initialize init_all
  heap_initialize_lem s v =
      init_all_lem bins s (rising-Distinct 16 (32 ∷ 64 ∷ 128 ∷ 256 ∷ 512 ∷ 1024 ∷ 2048 ∷ []) refl)
        refl v
