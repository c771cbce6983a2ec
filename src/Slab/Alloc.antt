-- ===== src/Slab/Alloc.antt =====
-- slab_alloc against the list of slabs.
use xenon_os.Base.{
  ℕ, ◌*◌, ◌/◌, ◌≤◌, ◌<◌, ◌≡◌, ◌≢◌, ◌⊎◌, inl, inr, refl, ap, arith, length-append, List, [], ◌∷◌,
  ◌++◌, length, subst, sym, Option, some, false, ◌==◌,
}
use xenon_os.Base.Lists.{All, All-right, All-at, All-replace}
use xenon_os.Pmm.{frame_count}
use xenon_os.Pmm.Alloc.{pmm_alloc-cases}
use xenon_os.Pmm.Frames.{used}
use xenon_os.Slab.{AddressSpace, slab_take, slab_alloc}
use xenon_os.Slab.Layout.{View, IsFrame, IsObject, object-bounds}
use xenon_os.Slab.Invariant.{IsCache, IsBusy, Chain-at}
use xenon_os.Slab.Grow.{IsReserved, slab_take_lem, grow-none, grow-some}
use xenon_os.Slab.Search.{IsFull, first_free, find_slab-none, find_slab-some}

-- The first slab that has a free object gives the first of its free list.
unfoldable pub Taken : ℕ → ℕ → AddressSpace → List View → Option (ℕ × AddressSpace) → Type 0
Taken cache size s vs result =
    (before : List View) × (v : View) × (after : List View) × (x : ℕ) × (xs : List ℕ)
    × (s' : AddressSpace) × (vs ≡ before ++ v ∷ after)
    × All IsFull before
    × (v.free ≡ x ∷ xs)
    × (result ≡ some (x, s'))
    × IsCache cache size s'
        (before ++ record { frame = v.frame; free = xs; live = x ∷ v.live } ∷ after)

-- A new slab in a frame that was free gives an object.
unfoldable pub Grown : ℕ → ℕ → AddressSpace → List View → Option (ℕ × AddressSpace) → Type 0
Grown cache size s vs result =
    (f : ℕ) × (x : ℕ) × (xs : List ℕ) × (s' : AddressSpace) × (used s.paging.pmm f ≡ 0)
    × (result ≡ some (x, s'))
    × IsCache cache size s' (record { frame = f * 4096; free = xs; live = x ∷ [] } ∷ vs)

-- Neither an object nor a frame is left: the result is NULL, and nothing changes.
unfoldable pub Failed : AddressSpace → Option (ℕ × AddressSpace) → Type 0
Failed s result = ((f : ℕ) → f < frame_count → used s.paging.pmm f ≡ 1) × (result ≡ some (0, s))

taken_lem :
    (fuel cache size : ℕ) (s : AddressSpace) (before : List View) (v : View) (after : List View)
    (x : ℕ) (xs : List ℕ)
    → 4 ≤ size
    → length (before ++ v ∷ after) < fuel
    → All IsFull before
    → v.free ≡ x ∷ xs
    → IsCache cache size s (before ++ v ∷ after)
    → Taken cache size s (before ++ v ∷ after) (slab_alloc fuel cache s)
unfolding slab_alloc Taken
taken_lem fuel cache size s before v after x xs big enough full free cached =
    let enough' : length before < fuel = omega (arith, enough, length-append before (v ∷ after)) in
    let found =
      find_slab-some s cache size before v after x xs fuel _ enough' cached.0.places full free
        cached.0.chain in
    let place = All-at (λ u. IsFrame cache u.frame) v before after cached.0.places in
    let real : (v.frame == 0) ≡ false = ground (arith, place.aligned, place.proper) in
    let take = slab_take_lem cache size s big before v after x xs free cached.0 in
    (
      before,
      v,
      after,
      x,
      xs,
      (slab_take v.frame s).1,
      refl,
      full,
      free,
      rw found (rw real (ap (λ r. some r) take.0)),
      (take.1, All-replace IsBusy v _ before after (λ b. omega arith) cached.1),
    )

grown_lem :
    (fuel cache size : ℕ) (s : AddressSpace) (vs : List View)
    → 4 ≤ size
    → size ≤ 4076
    → length vs < fuel
    → All IsFull vs
    → IsReserved cache s
    → IsCache cache size s vs
    → Grown cache size s vs (slab_alloc fuel cache s) ⊎ Failed s (slab_alloc fuel cache s)
unfolding slab_alloc Grown Failed
grown_lem fuel cache size s vs big small enough full reserved cached =
    let ended = find_slab-none s cache size vs fuel _ enough cached.0.places full cached.0.chain in
    elim (pmm_alloc-cases cached.0.allocator) [
      | inl (none_free, all_used) ↦
          inr (all_used, rw ended (ap (λ r. some r) (grow-none cache size s big none_free)))
      | inr (f, lt, address, free, taken) ↦
          let (x, xs, s', grown, linked) =
            grow-some cache size s big small vs f lt address free taken reserved cached.0 in
          inl (
            f,
            x,
            xs,
            s',
            free,
            rw ended (ap (λ r. some r) grown),
            (linked, (omega arith, cached.1)),
          )
    ]

-- slab_alloc on a cache of objects of 4 to 4076 bytes, with fuel above the number of slabs, ends in
-- one of three ways. It takes the first free object of the first slab that has one; or all slabs are
-- full and it takes an object of a new slab, in a frame that was free; or then no frame is left, and
-- it returns NULL and changes nothing. In the first two the invariant holds of the list of slabs in
-- which that object has moved from the free list to the live objects of its slab.
pub slab_alloc_lem :
    (fuel cache size : ℕ) (s : AddressSpace) (vs : List View)
    → 4 ≤ size
    → size ≤ 4076
    → length vs < fuel
    → IsReserved cache s
    → IsCache cache size s vs
    → Taken cache size s vs (slab_alloc fuel cache s)
      ⊎ (All IsFull vs
          × (Grown cache size s vs (slab_alloc fuel cache s) ⊎ Failed s (slab_alloc fuel cache s)))
slab_alloc_lem fuel cache size s vs big small enough reserved cached = elim (first_free vs) [
  | inl full ↦ inr (full, grown_lem fuel cache size s vs big small enough full reserved cached)
  | inr (before, v, after, x, xs, e, free, full) ↦
      let cached' = subst (IsCache cache size s) e cached in
      let enough' = subst (λ us. length us < fuel) e enough in
      inl (
        subst (λ us. Taken cache size s us (slab_alloc fuel cache s)) (sym e)
          (taken_lem fuel cache size s before v after x xs big enough' full free cached'))
]

-- A live object of a cache is an address, not NULL.
pub live-proper :
    (cache size : ℕ) (s : AddressSpace) (before : List View) (v : View) (after : List View) (x : ℕ)
    (live : List ℕ)
    → 4 ≤ size
    → v.live ≡ x ∷ live
    → IsCache cache size s (before ++ v ∷ after)
    → (x ≢ 0) × (x / 4096 ≡ v.frame / 4096)
live-proper cache size s before v after x live big held cached =
    let place = All-at (λ u. IsFrame cache u.frame) v before after cached.0.places in
    let slab = Chain-at s.memory cache size _ before v after cached.0.chain in
    let all =
      subst (All (IsObject size v.frame)) held
        (All-right (IsObject size v.frame) v.free v.live slab.0.objects) in
    let bounds = object-bounds size v.frame x big all.0 in
    (λ e. omega (arith, e, bounds), omega (arith, bounds, place.aligned))

-- NULL, or an address.
pub slab_alloc-result :
    (fuel cache size : ℕ) (s : AddressSpace) (vs : List View)
    → 4 ≤ size
    → size ≤ 4076
    → length vs < fuel
    → IsReserved cache s
    → IsCache cache size s vs
    → (All IsFull vs
        × ((f : ℕ) → f < frame_count → used s.paging.pmm f ≡ 1)
        × (slab_alloc fuel cache s ≡ some (0, s)))
      ⊎ ((x : ℕ) × (s' : AddressSpace) × (slab_alloc fuel cache s ≡ some (x, s')) × (x ≢ 0))
unfolding Taken Grown Failed
slab_alloc-result fuel cache size s vs big small enough reserved cached =
    elim (slab_alloc_lem fuel cache size s vs big small enough reserved cached) [
      | inl (before, v, after, x, xs, s', _, _, _, done, cached') ↦
          inr (x, s', done, (live-proper cache size s' before _ after x v.live big refl cached').0)
      | inr (full, rest) ↦ elim rest [
        | inl (f, x, xs, s', _, done, cached') ↦
            inr (x, s', done, (live-proper cache size s' [] _ vs x [] big refl cached').0)
        | inr (all_used, failed) ↦ inl (full, all_used, failed)
      ]
    ]

-- The first slab_alloc on a cache without slabs, while a frame is free.
pub record First (fuel cache size : ℕ) (s : AddressSpace) : Type 0 where
  pub object : ℕ
  pub free : List ℕ
  pub frame : ℕ
  pub after : AddressSpace
  pub done : slab_alloc fuel cache s ≡ some (object, after)
  pub proper : object ≢ 0
  pub inside : object / 4096 ≡ frame
  pub fresh : used s.paging.pmm frame ≡ 0
  pub cached :
      IsCache cache size after
        (record { frame = frame * 4096; free = free; live = object ∷ [] } ∷ [])

pub slab_alloc-first :
    (fuel cache size f : ℕ) (s : AddressSpace)
    → 4 ≤ size
    → size ≤ 4076
    → 0 < fuel
    → IsReserved cache s
    → IsCache cache size s []
    → f < frame_count
    → used s.paging.pmm f ≡ 0
    → First fuel cache size s
unfolding Grown Failed
slab_alloc-first fuel cache size f s big small enough reserved cached lt free =
    elim (grown_lem fuel cache size s [] big small enough tt reserved cached) [
      | inl (f', x, xs, s', fresh, done, cached') ↦
          let proper = live-proper cache size s' [] _ [] x [] big refl cached' in
          record {
            object = x;
            free = xs;
            frame = f';
            after = s';
            done = done;
            proper = proper.0;
            inside = omega (arith, proper.1);
            fresh = fresh;
            cached = cached';
          }
      | inr (all_used, failed) ↦ absurd (omega (arith, all_used f lt, free))
    ]
