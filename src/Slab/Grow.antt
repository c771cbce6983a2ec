-- ===== src/Slab/Grow.antt =====
-- slab_take on a cache, and the slab that slab_alloc adds to it when none has a free object.
use xenon_os.Base.{
  dec_lt, if◌then◌else◌, ℕ, ◌+◌, ◌*◌, ◌/◌, ◌^◌, ◌≤◌, ◌<◌, ◌≡◌, ◌≢◌, ◌⊎◌, inl, inr, refl, ap, ◌∙◌,
  arith, List, [], ◌∷◌, ◌++◌, subst, sym, false, ◌==◌,
}
use xenon_os.Base.Distinct.{NotIn}
use xenon_os.Base.Lists.{All, All-map, All-at}
use xenon_os.Memory.{load32}
use xenon_os.Pmm.{frame_count, pmm_alloc, no_frame, page_size}
use native.Mathlib.Nat.{le-div_iff_mul-le}
use xenon_os.Pmm.Frames.{used}
use xenon_os.Slab.{
  AddressSpace, grow, slab_create, fill_slab, map_frame, store, load, slabs, slab_take,
}
use xenon_os.Slab.Layout.{View, IsSlab-kept, HasObjects, IsSlab, IsFrame, Chain, frames, room}
use xenon_os.Paging.{Paging}
use xenon_os.Slab.Objects.{slab_take-HasObjects, slab_take-Keeps, slab_take-object}
use xenon_os.Slab.Invariant.{IsLinked, IsLinked-change, Chain-at}
use xenon_os.Slab.Fill.{fill_slab_lem, fill_slab-paging, pile, pile-some}
use xenon_os.Paging.Allocator.{Grows, pmm_alloc-Grows, paging_map-Grows}
use xenon_os.Slab.Unlink.{Chain-lt, store32-SamePage, slabs-Outside}
use xenon_os.Memory.Words.{Apart32, load32-store32, load32-store32_apart}
use xenon_os.Slab.Chain.{Chain-kept, others-SamePage}

module _ (cache size : ℕ) (s : AddressSpace) (big : 4 ≤ size) where
  pub slab_take_lem :
      (before : List View) (v : View) (after : List View) (x : ℕ) (xs : List ℕ)
      → v.free ≡ x ∷ xs
      → IsLinked cache size s (before ++ v ∷ after)
      → (slab_take v.frame s ≡ (x, (slab_take v.frame s).1))
        × IsLinked cache size
            (slab_take v.frame s).1
            (before ++ record { frame = v.frame; free = xs; live = x ∷ v.live } ∷ after)
  slab_take_lem before v after x xs free linked =
      let place = All-at (λ u. IsFrame cache u.frame) v before after linked.places in
      let fits : v.frame + 4096 ≤ 2 ^ 32 = omega (arith, place.aligned, place.below) in
      let slab =
        subst
          (λ r.
            HasObjects s.memory cache size (record { frame = v.frame; free = r; live = v.live }))
          free (Chain-at s.memory cache size _ before v after linked.chain).0 in
      (
        ap (λ (o : ℕ). (o, (slab_take v.frame s).1))
            (slab_take-object s cache size v.frame big fits x xs v.live slab),
        IsLinked-change cache size s _ before v _ after big refl (unfold slab_take in refl)
            (slab_take-Keeps s cache size v.frame big fits x xs v.live slab)
            (slab_take-HasObjects s cache size v.frame big fits x xs v.live slab) linked,
      )

room-pos : (size : ℕ) → 4 ≤ size → size ≤ 4076 → 0 < room size
room-pos size big small =
    (le-div_iff_mul-le {k = size} {x = 1} {y = 4076} (omega arith)).1 (omega arith)

-- The pages of the cache and the page 0 are not for the frame allocator to give.
pub record IsReserved (cache : ℕ) (s : AddressSpace) : Type 0 where
  pub home : (a : ℕ) → cache ≤ a → a < cache + 8 → used s.paging.pmm (a / 4096) ≡ 1
  pub below : cache + 8 ≤ 2 ^ 32
  pub null : used s.paging.pmm 0 ≡ 1

-- A frame that was free lies apart from the cache and from its slabs.
fresh-apart :
    (cache f : ℕ)
    → ((a : ℕ) → cache ≤ a → a < cache + 8 → a / 4096 ≢ f)
    → (cache + 8 ≤ f * 4096) ⊎ (f * 4096 + 4096 ≤ cache)
fresh-apart cache f elsewhere = elim (dec_lt (f * 4096) (cache + 8)) [
  | no after ↦ inl (omega arith)
  | yes low ↦ elim (dec_lt cache (f * 4096 + 4096)) [
    | no before ↦ inr (omega arith)
    | yes high ↦ elim (dec_lt cache (f * 4096)) [
      | yes inside ↦ absurd (elsewhere (f * 4096) (omega arith) (omega arith) (omega arith))
      | no start ↦ absurd (elsewhere cache (omega arith) (omega arith) (omega arith))
    ]
  ]
]

fresh-IsFrame :
    (cache f : ℕ) (s : AddressSpace)
    → f < frame_count
    → used s.paging.pmm f ≡ 0
    → IsReserved cache s
    → IsFrame cache (f * 4096)
fresh-IsFrame cache f s lt free reserved = record {
  page = f;
  aligned = refl;
  below = lt;
  proper = λ e. omega (arith, free, reserved.null, ap (used s.paging.pmm) e);
  apart =
      fresh-apart cache f
        (λ a low high e. omega (arith, free, reserved.home a low high, ap (used s.paging.pmm) e));
}

fresh-NotIn :
    (cache f : ℕ) (s : AddressSpace) (vs : List View)
    → used s.paging.pmm f ≡ 0
    → All (λ v. used s.paging.pmm (v.frame / 4096) ≡ 1) vs
    → NotIn (f * 4096) (frames vs)
fresh-NotIn cache f s [] free owned = tt
fresh-NotIn cache f s (v ∷ vs) free owned = (
  λ e.
      let same : v.frame / 4096 ≡ f = omega (arith, e) in
      omega (arith, owned.0, free, ap (used s.paging.pmm) same),
  fresh-NotIn cache f s vs free owned.1,
)

module _ (cache size : ℕ) (s : AddressSpace) (big : 4 ≤ size) where
  pub grow-none : pmm_alloc s.paging.pmm ≡ (no_frame, s.paging.pmm) → grow cache s ≡ (0, s)
  unfolding grow slab_create
  grow-none e = rw (e, grow) refl

  module _ (small : size ≤ 4076) (vs : List View) (f : ℕ) (lt : f < frame_count)
      (address : (pmm_alloc s.paging.pmm).0 ≡ f * page_size) (fresh : used s.paging.pmm f ≡ 0)
      (taken : (g : ℕ)
        → used (pmm_alloc s.paging.pmm).1 g ≡ (if f == g then 1 else used s.paging.pmm g))
      (reserved : IsReserved cache s) (linked : IsLinked cache size s vs) where
    abbrev filled : AddressSpace
    filled = fill_slab (f * 4096) cache (map_frame (f * 4096) s)

    slab_create-ok : slab_create cache s ≡ (f * 4096, filled)
    unfolding slab_create
    slab_create-ok =
        let ok : (f * 4096 == no_frame) ≡ false = ground arith in rw (address, ok, slab_create) refl

    abbrev added : AddressSpace
    added = store (slabs cache) (f * 4096) (store (f * 4096) (load (slabs cache) filled) filled)

    place : IsFrame cache (f * 4096)
    place = fresh-IsFrame cache f s lt fresh reserved

    filled_parts :
        IsSlab filled.memory cache size
          (record { frame = f * 4096; free = pile size (f * 4096) (room size) 0 []; live = [] })
        × ((a : ℕ)
            → (a + 4 ≤ f * 4096) ⊎ (f * 4096 + 4096 ≤ a)
            → load32 filled.memory a ≡ load32 s.memory a)
    filled_parts =
        fill_slab_lem cache size (f * 4096) big place (map_frame (f * 4096) s) linked.object_size
          (omega (arith, reserved.below))

    added-apart :
        (a : ℕ)
        → Apart32 (f * 4096) a
        → Apart32 (slabs cache) a
        → load32 added.memory a ≡ load32 filled.memory a
    added-apart a p q = load32-store32_apart _ _ _ a q ∙ load32-store32_apart _ _ _ a p

    first_word : load (slabs cache) filled ≡ load (slabs cache) s
    first_word = filled_parts.1 (slabs cache) (omega (arith, place.apart))

    added-next : load (f * 4096) added ≡ load (slabs cache) s
    added-next =
        load32-store32_apart _ _ _ (f * 4096) (omega (arith, place.apart))
        ∙ load32-store32 filled.memory (f * 4096) _ (
            subst (λ (w : ℕ). w < 2 ^ 32) (sym first_word)
              (Chain-lt s.memory cache size _ vs linked.places linked.chain))
        ∙ first_word

    added-Chain : Chain added.memory cache size (load (slabs cache) s) vs
    added-Chain =
        Chain-kept _ added.memory cache size _ vs big
          (store32-SamePage _ (slabs cache) (f * 4096) vs (slabs-Outside cache vs linked.places))
          (Chain-kept s.memory _ cache size _ vs big
            (others-SamePage s.memory _ cache (f * 4096) vs place linked.places
              (fresh-NotIn cache f s vs fresh linked.owned)
              (λ a h.
                load32-store32_apart filled.memory (f * 4096) _ a (omega (arith, h))
                ∙ filled_parts.1 a h))
            linked.chain)

    added-Grows : Grows (pmm_alloc s.paging.pmm).1 added.paging.pmm
    added-Grows =
        subst (λ (g : Paging). Grows (pmm_alloc s.paging.pmm).1 g.pmm)
          (sym (fill_slab-paging (f * 4096) cache (map_frame (f * 4096) s)))
          (paging_map-Grows (f * 4096) (f * 4096) 3 _
            (pmm_alloc-Grows s.paging.pmm linked.allocator).0)

    added-IsLinked :
        IsLinked cache size added (
          record { frame = f * 4096; free = pile size (f * 4096) (room size) 0 []; live = [] } ∷ vs)
    added-IsLinked = record {
      allocator = added-Grows.0;
      object_size =
          added-apart cache (omega (arith, place.apart)) (omega arith)
          ∙ filled_parts.1 cache (omega (arith, place.apart))
          ∙ linked.object_size;
      chain = (
        load32-store32 _ (slabs cache) (f * 4096) (omega arith),
        IsSlab-kept filled.memory added.memory cache size _ big
            (λ a low high. added-apart a (omega arith) (omega (arith, place.apart))) filled_parts.0,
        subst (λ (p : ℕ). Chain added.memory cache size p vs) (sym added-next) added-Chain,
      );
      places = (place, linked.places);
      apart = (fresh-NotIn cache f s vs fresh linked.owned, linked.apart);
      owned = (
        added-Grows.1 (f * 4096 / 4096) (taken (f * 4096 / 4096) ∙ ground arith),
        All-map (λ v. used s.paging.pmm (v.frame / 4096) ≡ 1) vs
            (λ v u.
              added-Grows.1 (v.frame / 4096)
                ((pmm_alloc-Grows s.paging.pmm linked.allocator).1 (v.frame / 4096) u))
            linked.owned,
      );
    }

    pub grow-some :
        (x : ℕ) × (xs : List ℕ) × (s' : AddressSpace) × (grow cache s ≡ (x, s'))
        × IsLinked cache size s' (record { frame = f * 4096; free = xs; live = x ∷ [] } ∷ vs)
    unfolding grow
    grow-some =
        let (x, xs, pile_eq) = pile-some size (f * 4096) (room size) (room-pos size big small) in
        let take =
          slab_take_lem cache size added big []
            (record { frame = f * 4096; free = pile size (f * 4096) (room size) 0 []; live = [] })
            vs x xs pile_eq added-IsLinked in
        let real : (f * 4096 == 0) ≡ false = ground (arith, place.proper) in
        (
          x,
          xs,
          (slab_take (f * 4096) added).1,
          rw (slab_create-ok, grow) (rw (real, grow) take.0),
          take.1,
        )
