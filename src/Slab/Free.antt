-- ===== src/Slab/Free.antt =====
-- slab_free against the list of slabs.
use xenon_os.Base.{
  ℕ, suc, ◌+◌, ◌/◌, ◌^◌, ◌≤◌, ◌<◌, ◌≡◌, ◌⊎◌, inl, inr, refl, ap, ◌∙◌, arith, List, [], ◌∷◌, ◌++◌,
  length, subst, sym, Option, some, false, true, ltb, bit_and,
}
use xenon_os.Base.Masks.{bit_and-page}
use xenon_os.Base.Distinct.{Distinct, NotIn}
use xenon_os.Base.Lists.{
  All, All-right, All-front, All-map, All-at, All-replace, Distinct-front, List-cases,
}
use xenon_os.Pmm.{Pmm, pmm_free}
use xenon_os.Pmm.Bounds.{pmm_free-IsValid}
use xenon_os.Pmm.Frames.{used, used-pmm_free}
use xenon_os.Slab.{
  AddressSpace, store, load, slabs, free_count, capacity, push_free, release, slab_free,
}
use xenon_os.Slab.Layout.{View, HasObjects, IsSlab, IsObject, IsFrame, frames, object-bounds}
use xenon_os.Slab.Objects.{push_free-HasObjects, push_free-Keeps}
use xenon_os.Slab.Chain.{Placed, frames-append}
use xenon_os.Slab.Unlink.{find_link_lem, slabs-Outside}
use xenon_os.Slab.Invariant.{IsLinked, IsCache, IsBusy, IsLinked-change, Chain-at}

frames-front :
    (v : View) (before after : List View)
    → Distinct (frames (before ++ v ∷ after))
    → Distinct (v.frame ∷ frames (before ++ after))
frames-front v before after d =
    subst (λ r. Distinct (v.frame ∷ r)) (sym (frames-append before after))
      (Distinct-front v.frame (frames before) (frames after)
        (subst Distinct (frames-append before (v ∷ after)) d))

owned-pmm_free :
    (p : Pmm) (cache f : ℕ) (vs : List View)
    → IsFrame cache f
    → Placed cache vs
    → NotIn f (frames vs)
    → All (λ v. used p (v.frame / 4096) ≡ 1) vs
    → All (λ v. used (pmm_free f p) (v.frame / 4096) ≡ 1) vs
owned-pmm_free p cache f [] place places n owned = tt
owned-pmm_free p cache f (v ∷ vs) place places n owned = (
  used-pmm_free f (v.frame / 4096) p
      ∙ ground (arith, place.aligned, places.0.aligned, n.0, owned.0),
  owned-pmm_free p cache f vs place places.1 n.1 owned.1,
)

module _ (cache size : ℕ) (s : AddressSpace) (before : List View) (v : View) (after : List View)
    (l l' : List ℕ) (x : ℕ) (big : 4 ≤ size) (held : v.live ≡ l ++ x ∷ l')
    (linked : IsLinked cache size s (before ++ v ∷ after)) where
  place : IsFrame cache v.frame
  place = All-at (λ u. IsFrame cache u.frame) v before after linked.places

  fits : v.frame + 4096 ≤ 2 ^ 32
  fits = omega (arith, place.aligned, place.below)

  abbrev freed : View
  freed = record { frame = v.frame; free = x ∷ v.free; live = l ++ l' }

  old :
      HasObjects s.memory cache size (record { frame = v.frame; free = v.free; live = l ++ x ∷ l' })
  old =
      subst
        (λ r. HasObjects s.memory cache size (record { frame = v.frame; free = v.free; live = r }))
        held (Chain-at s.memory cache size _ before v after linked.chain).0

  abbrev pushed : AddressSpace
  pushed = push_free v.frame x s

  pushed-IsLinked : IsLinked cache size pushed (before ++ freed ∷ after)
  pushed-IsLinked =
      IsLinked-change cache size s pushed before v freed after big refl (unfold push_free in refl)
        (push_free-Keeps s cache size v.frame big fits x v.free l l' old)
        (push_free-HasObjects s cache size v.frame big fits x v.free l l' old) linked

  -- The mask recovers the slab from the object.
  pub owner_page : bit_and x 0xFFFFF000 ≡ v.frame
  owner_page =
      let object =
        (All-front (IsObject size v.frame) x l l'
          (All-right (IsObject size v.frame) v.free (l ++ x ∷ l') old.objects)).0 in
      let bounds = object-bounds size v.frame x big object in
      bit_and-page x (omega (arith, bounds, fits)) ∙ omega (arith, bounds, place.aligned)

  slab : IsSlab pushed.memory cache size freed
  slab = Chain-at pushed.memory cache size _ before freed after pushed-IsLinked.chain

  -- The test of free_count against capacity tells whether the slab has a live object left.
  counts :
      ltb (load (free_count v.frame) pushed) (load (capacity v.frame) pushed)
      ≡ ltb 0 (length (l ++ l'))
  counts =
      let total = slab.0.total in
      ap (λ (n : ℕ). ltb n (load (capacity v.frame) pushed)) slab.0.count
      ∙ ap (λ (n : ℕ). ltb (suc (length v.free)) n) slab.1
      ∙ ground (arith, total)

  slab_free-kept : (fuel : ℕ) → 0 < length (l ++ l') → slab_free fuel cache x s ≡ some pushed
  unfolding slab_free
  slab_free-kept fuel some_live =
      let live : ltb 0 (length (l ++ l')) ≡ true = ground arith in
      let test = counts ∙ live in rw (owner_page, test, slab_free) refl

  slab_free-released :
      (fuel : ℕ)
      → length before < fuel
      → l ++ l' ≡ []
      → (s' : AddressSpace) × (slab_free fuel cache x s ≡ some s')
        × (s'.paging.pmm ≡ pmm_free v.frame s.paging.pmm)
        × IsLinked cache size s' (before ++ after)
  unfolding slab_free release push_free
  slab_free-released fuel enough none_live =
      let apart = frames-front freed before after pushed-IsLinked.apart in
      let places =
        All-front (λ u. IsFrame cache u.frame) freed before after pushed-IsLinked.places in
      let (link, (found, chain, kept)) =
        find_link_lem pushed cache size freed after big before fuel (slabs cache) enough
          (slabs-Outside cache (before ++ freed ∷ after) pushed-IsLinked.places)
          pushed-IsLinked.places pushed-IsLinked.apart pushed-IsLinked.chain in
      let none : ltb 0 (length (l ++ l')) ≡ false = ground (arith, ap length none_live) in
      let unlinked : AddressSpace = store link (load v.frame pushed) pushed in
      let cache_word : load cache unlinked ≡ load cache pushed = kept cache (omega arith) (
        All-map (λ u. IsFrame cache u.frame) (before ++ freed ∷ after)
          (λ u p. omega (arith, p.apart)) pushed-IsLinked.places) in
      (
        record unlinked {
          paging = record unlinked.paging { pmm = pmm_free v.frame unlinked.paging.pmm };
        },
        rw (owner_page, counts ∙ none, slab_free) (rw (found, release) refl),
        refl,
        record {
          allocator = pmm_free-IsValid v.frame linked.allocator;
          object_size = cache_word ∙ pushed-IsLinked.object_size;
          chain = chain;
          places = places.1;
          apart = apart.1;
          owned =
              owned-pmm_free s.paging.pmm cache v.frame (before ++ after) place places.1 apart.0
                (All-front (λ u. used s.paging.pmm (u.frame / 4096) ≡ 1) freed before after
                  pushed-IsLinked.owned).1;
        },
      )

-- What slab_free leaves: the slab with one more free object, or, after its last live object, a cache
-- without it and its frame given back.
unfoldable pub Freed :
    ℕ → ℕ → AddressSpace → List View → View → List View → List ℕ → ℕ → Option AddressSpace → Type 0
Freed cache size s before v after rest x result =
    (s' : AddressSpace) × (result ≡ some s')
    × (((0 < length rest)
          × (s'.paging ≡ s.paging)
          × IsCache cache size s'
              (before ++ record { frame = v.frame; free = x ∷ v.free; live = rest } ∷ after))
        ⊎ ((rest ≡ [])
            × (s'.paging.pmm ≡ pmm_free v.frame s.paging.pmm)
            × IsCache cache size s' (before ++ after)))

-- slab_free of a live object, with fuel above the number of slabs before its own, ends, and the
-- invariant holds after it. If its slab has other live objects, the object is now the first of the
-- free list, and the page tables and the frames stay; if it was the last one, the slab is out of the
-- cache and pmm_free has taken its frame back.
pub slab_free_lem :
    (fuel cache size : ℕ) (s : AddressSpace) (before : List View) (v : View) (after : List View)
    (l l' : List ℕ) (x : ℕ)
    → 4 ≤ size
    → v.live ≡ l ++ x ∷ l'
    → length before < fuel
    → IsCache cache size s (before ++ v ∷ after)
    → Freed cache size s before v after (l ++ l') x (slab_free fuel cache x s)
unfolding Freed
slab_free_lem fuel cache size s before v after l l' x big held enough cached =
    elim (List-cases (l ++ l')) [
      | inr (y, ys, e) ↦
          let live : 0 < length (l ++ l') = omega (arith, ap length e) in
          (
            push_free v.frame x s,
            slab_free-kept cache size s before v after l l' x big held cached.0 fuel live,
            inl (
              live,
              unfold push_free in refl,
              (
                pushed-IsLinked cache size s before v after l l' x big held cached.0,
                All-replace IsBusy v _ before after (λ b. live) cached.1,
              ),
            ),
          )
      | inl none_live ↦
          let (s', result, gone, linked) =
            slab_free-released cache size s before v after l l' x big held cached.0 fuel enough
              none_live in
          (
            s',
            result,
            inr (none_live, gone, (linked, (All-front IsBusy v before after cached.1).1)),
          )
    ]
