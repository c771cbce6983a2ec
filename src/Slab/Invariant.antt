-- ===== src/Slab/Invariant.antt =====
-- The invariant of a cache, and a change to the objects of one slab.
use xenon_os.Base.{
  ℕ, ◌+◌, ◌/◌, ◌≤◌, ◌<◌, ◌≡◌, ap, ◌∙◌, arith, List, [], ◌∷◌, ◌++◌, length, subst, sym,
}
use xenon_os.Base.Distinct.{Distinct}
use xenon_os.Base.Lists.{All, All-at, All-replace}
use xenon_os.Memory.{Bytes, load32}
use xenon_os.Pmm.Bounds
use xenon_os.Pmm.Frames.{used}
use xenon_os.Slab.{AddressSpace, load, slabs}
use xenon_os.Slab.Layout.{View, HasObjects, IsSlab, IsFrame, Chain, frames}
use xenon_os.Paging.{Paging}
use xenon_os.Slab.Objects.{Keeps}
use xenon_os.Slab.Chain.{Placed, Chain-change}

-- `size` is the object size, and `vs` the slabs: they lie in distinct pages, whose frames are
-- in use. In a cache between two calls each of them has a live object.
pub record IsLinked (cache size : ℕ) (s : AddressSpace) (vs : List View) : Type 0 where
  pub allocator : Bounds.IsValid s.paging.pmm
  pub object_size : load cache s ≡ size
  pub chain : Chain s.memory cache size (load (slabs cache) s) vs
  pub places : Placed cache vs
  pub apart : Distinct (frames vs)
  pub owned : All (λ v. used s.paging.pmm (v.frame / 4096) ≡ 1) vs

abbrev pub IsBusy : View → Type 0
IsBusy v = 0 < length v.live

abbrev pub IsCache : ℕ → ℕ → AddressSpace → List View → Type 0
IsCache cache size s vs = IsLinked cache size s vs × All IsBusy vs

frames-replace :
    (v v' : View) (before after : List View)
    → v'.frame ≡ v.frame
    → frames (before ++ v' ∷ after) ≡ frames (before ++ v ∷ after)
frames-replace v v' [] after e = ap (λ (f : ℕ). f ∷ frames after) e
frames-replace v v' (u ∷ before) after e =
    ap (λ r. u.frame ∷ r) (frames-replace v v' before after e)

pub Chain-at :
    (m : Bytes) (cache size p : ℕ) (before : List View) (v : View) (after : List View)
    → Chain m cache size p (before ++ v ∷ after)
    → IsSlab m cache size v
Chain-at m cache size p [] v after chain = chain.1
Chain-at m cache size p (u ∷ before) v after chain =
    Chain-at m cache size (load32 m u.frame) before v after chain.2

-- A change to the objects of one slab, as far as the whole cache goes.
pub IsLinked-change :
    (cache size : ℕ) (s s' : AddressSpace) (before : List View) (v v' : View) (after : List View)
    → 4 ≤ size
    → v'.frame ≡ v.frame
    → s'.paging ≡ s.paging
    → Keeps v.frame s.memory s'.memory
    → HasObjects s'.memory cache size v'
    → IsLinked cache size s (before ++ v ∷ after)
    → IsLinked cache size s' (before ++ v' ∷ after)
IsLinked-change cache size s s' before v v' after big e same kept slab linked =
    let place = All-at (λ u. IsFrame cache u.frame) v before after linked.places in
    let old = Chain-at s.memory cache size _ before v after linked.chain in
    let full_slab : IsSlab s'.memory cache size v' = (
      slab,
      ap (λ (f : ℕ). load32 s'.memory (f + 16)) e ∙ kept (v.frame + 16) (omega arith) ∙ old.1,
    ) in
    record {
      allocator = subst (λ (g : Paging). Bounds.IsValid g.pmm) (sym same) linked.allocator;
      object_size = kept cache (omega (arith, place.apart)) ∙ linked.object_size;
      chain =
          subst (λ (p : ℕ). Chain s'.memory cache size p (before ++ v' ∷ after))
            (sym (kept (slabs cache) (omega (arith, place.apart))))
            (Chain-change s.memory s'.memory cache size _ before v v' after big e kept full_slab
              linked.places linked.apart linked.chain);
      places =
          All-replace (λ u. IsFrame cache u.frame) v v' before after (subst (IsFrame cache) (sym e))
            linked.places;
      apart = subst Distinct (sym (frames-replace v v' before after e)) linked.apart;
      owned =
          subst (λ (g : Paging). All (λ u. used g.pmm (u.frame / 4096) ≡ 1) (before ++ v' ∷ after))
            (sym same)
            (All-replace (λ u. used s.paging.pmm (u.frame / 4096) ≡ 1) v v' before after
              (subst (λ (f : ℕ). used s.paging.pmm (f / 4096) ≡ 1) (sym e)) linked.owned);
    }

-- The cache does not depend on the page tables, only on its frames being in use.
pub IsLinked-paging :
    (cache size : ℕ) (s : AddressSpace) (paging : Paging) (vs : List View)
    → Bounds.IsValid paging.pmm
    → All (λ v. used paging.pmm (v.frame / 4096) ≡ 1) vs
    → IsLinked cache size s vs
    → IsLinked cache size (record s { paging = paging }) vs
IsLinked-paging cache size s paging vs valid owned linked = record {
  allocator = valid;
  object_size = linked.object_size;
  chain = linked.chain;
  places = linked.places;
  apart = linked.apart;
  owned = owned;
}
