-- ===== src/Slab/Fill.antt =====
-- slab_create: the header of a new slab and its free list.
use xenon_os.Base.{
  ℕ, zero, suc, ◌+◌, ◌*◌, ◌/◌, ◌^◌, ◌≤◌, ◌<◌, ◌≡◌, ◌⊎◌, refl, ◌∙◌, arith, List, [], ◌∷◌, length,
  subst, sym,
}
use native.Mathlib.Nat.{div-le_self}
use xenon_os.Base.Distinct.{Distinct, NotIn}
use xenon_os.Base.Lists.{All}
use xenon_os.Memory.{load32}
use xenon_os.Memory.Words.{load32-store32, load32-store32_apart}
use xenon_os.Slab.{
  AddressSpace, push_free, store, load, capacity, slab_size, link_objects, blank_header, fill_slab,
}
use xenon_os.Slab.Layout.{HasObjects, IsSlab, IsObject, room, IsFrame, HasObjects-kept}
use xenon_os.Slab.Objects.{Keeps, push_free-HasObjects, push_free-Keeps}

-- The objects from number `i` on, and the pile of them that the loop makes.
abbrev pub upward : ℕ → ℕ → ℕ → ℕ → List ℕ
upward size frame zero i = []
upward size frame (suc left) i = (frame + 20 + i * size) ∷ upward size frame left (i + 1)

abbrev pub pile : ℕ → ℕ → ℕ → ℕ → List ℕ → List ℕ
pile size frame zero i free = free
pile size frame (suc left) i free = pile size frame left (i + 1) ((frame + 20 + i * size) ∷ free)

upward-All :
    (size frame left i : ℕ)
    → i + left ≡ room size
    → All (IsObject size frame) (upward size frame left i)
upward-All size frame zero i e = tt
upward-All size frame (suc left) i e =
    ((i, omega arith, refl), upward-All size frame left (i + 1) (omega arith))

upward-NotIn :
    (size frame left i x : ℕ) → x < frame + 20 + i * size → NotIn x (upward size frame left i)
upward-NotIn size frame zero i x lt = tt
upward-NotIn size frame (suc left) i x lt =
    (λ e. omega (arith, e), upward-NotIn size frame left (i + 1) x (omega arith))

upward-Distinct : (size frame left i : ℕ) → 4 ≤ size → Distinct (upward size frame left i)
upward-Distinct size frame zero i big = tt
upward-Distinct size frame (suc left) i big = (
  upward-NotIn size frame left (i + 1) (frame + 20 + i * size) (omega arith),
  upward-Distinct size frame left (i + 1) big,
)

upward-length : (size frame left i : ℕ) → length (upward size frame left i) ≡ left
upward-length size frame zero i = refl
upward-length size frame (suc left) i = omega (arith, upward-length size frame left (i + 1))

module _ (cache size frame : ℕ) (big : 4 ≤ size) (place : IsFrame cache frame) where
  fits : frame + 4096 ≤ 2 ^ 32
  fits = omega (arith, place.aligned, place.below)

  link_objects_lem :
      (left i : ℕ) (free : List ℕ) (s : AddressSpace)
      → load cache s ≡ size
      → HasObjects s.memory cache size
          (record { frame = frame; free = free; live = upward size frame left i })
      → HasObjects
          (link_objects left i frame cache s).memory
          cache
          size
          (record { frame = frame; free = pile size frame left i free; live = [] })
        × Keeps frame s.memory (link_objects left i frame cache s).memory
  unfolding link_objects
  link_objects_lem zero i free s e slab = (slab, λ a h. refl)
  link_objects_lem (suc left) i free s e slab =
      let x : ℕ = frame + 20 + i * size in
      let next : AddressSpace = push_free frame x s in
      let slab' =
        push_free-HasObjects s cache size frame big fits x free [] (upward size frame left (i + 1))
          slab in
      let kept : Keeps frame s.memory next.memory =
        push_free-Keeps s cache size frame big fits x free [] (upward size frame left (i + 1))
          slab in
      let rest =
        link_objects_lem left (i + 1) (x ∷ free) next (kept cache (omega (arith, place.apart)) ∙ e)
          slab' in
      subst
        (λ (n : ℕ).
          HasObjects
            (link_objects left (i + 1) frame cache
              (push_free frame (frame + slab_size + i * n) s)).memory
            cache size
            (record { frame = frame; free = pile size frame left (i + 1) (x ∷ free); live = [] })
          × Keeps frame s.memory
              (link_objects left (i + 1) frame cache
                (push_free frame (frame + slab_size + i * n) s)).memory)
        (sym e) (rest.0, λ a h. rest.1 a h ∙ kept a h)

  module _ (s : AddressSpace) (e : load cache s ≡ size) (c : cache < 2 ^ 32) where
    abbrev blank : AddressSpace
    blank = blank_header frame cache s

    blank-apart :
        (a : ℕ) → (a + 4 ≤ frame) ⊎ (frame + 16 ≤ a) → load32 blank.memory a ≡ load32 s.memory a
    unfolding blank_header
    blank-apart a h =
        load32-store32_apart _ _ _ a (omega (arith, h))
        ∙ load32-store32_apart _ _ _ a (omega (arith, h))
        ∙ load32-store32_apart _ _ _ a (omega (arith, h))
        ∙ load32-store32_apart _ _ _ a (omega (arith, h))

    blank-size : load cache blank ≡ size
    blank-size = blank-apart cache (omega (arith, place.apart)) ∙ e

    blank-HasObjects :
        HasObjects blank.memory cache size
          (record { frame = frame; free = []; live = upward size frame (room size) 0 })
    unfolding blank_header
    blank-HasObjects = record {
      owner =
          load32-store32_apart _ _ _ (frame + 4) (omega arith)
          ∙ load32-store32_apart _ _ _ (frame + 4) (omega arith)
          ∙ load32-store32 _ (frame + 4) cache c;
      links =
          load32-store32_apart _ _ _ (frame + 8) (omega arith)
          ∙ load32-store32 _ (frame + 8) 0 (omega arith);
      count = load32-store32 _ (frame + 12) 0 (omega arith);
      objects = upward-All size frame (room size) 0 (omega arith);
      distinct = upward-Distinct size frame (room size) 0 big;
      total = omega (arith, upward-length size frame (room size) 0);
    }

    filled_by : ℕ → AddressSpace
    filled_by n = store (capacity frame) n (link_objects n 0 frame cache blank)

    filled_lem :
        IsSlab
          (filled_by (room size)).memory
          cache
          size
          (record { frame = frame; free = pile size frame (room size) 0 []; live = [] })
        × ((a : ℕ)
            → (a + 4 ≤ frame) ⊎ (frame + 4096 ≤ a)
            → load32 (filled_by (room size)).memory a ≡ load32 s.memory a)
    unfolding filled_by
    filled_lem =
        let linked = link_objects_lem (room size) 0 [] blank blank-size blank-HasObjects in
        let before : AddressSpace = link_objects (room size) 0 frame cache blank in
        (
          (
            HasObjects-kept before.memory _ cache size _ big
                (λ a low high.
                  load32-store32_apart before.memory (frame + 16) (room size) a (omega arith))
                (λ a low high.
                  load32-store32_apart before.memory (frame + 16) (room size) a (omega arith))
                linked.0,
            load32-store32 before.memory (frame + 16) (room size)
                (omega (arith, div-le_self 4076 size)),
          ),
          λ a h.
              load32-store32_apart before.memory (frame + 16) (room size) a (omega (arith, h))
              ∙ linked.1 a (omega (arith, h))
              ∙ blank-apart a (omega (arith, h)),
        )

    pub fill_slab_lem :
        IsSlab
          (fill_slab frame cache s).memory
          cache
          size
          (record { frame = frame; free = pile size frame (room size) 0 []; live = [] })
        × ((a : ℕ)
            → (a + 4 ≤ frame) ⊎ (frame + 4096 ≤ a)
            → load32 (fill_slab frame cache s).memory a ≡ load32 s.memory a)
    unfolding fill_slab filled_by
    fill_slab_lem =
        subst
          (λ (n : ℕ).
            IsSlab (filled_by (4076 / n)).memory cache size
              (record { frame = frame; free = pile size frame (room size) 0 []; live = [] })
            × ((a : ℕ)
                → (a + 4 ≤ frame) ⊎ (frame + 4096 ≤ a)
                → load32 (filled_by (4076 / n)).memory a ≡ load32 s.memory a))
          (sym blank-size) filled_lem

link_objects-paging :
    (left i frame cache : ℕ) (s : AddressSpace)
    → (link_objects left i frame cache s).paging ≡ s.paging
unfolding link_objects push_free
link_objects-paging zero i frame cache s = refl
link_objects-paging (suc left) i frame cache s =
    link_objects-paging left (i + 1) frame cache
      (push_free frame (frame + slab_size + i * load cache s) s)

pub fill_slab-paging :
    (frame cache : ℕ) (s : AddressSpace) → (fill_slab frame cache s).paging ≡ s.paging
unfolding fill_slab blank_header
fill_slab-paging frame cache s = link_objects-paging _ 0 frame cache _

pile-cons :
    (size frame left i y : ℕ) (free : List ℕ)
    → (x : ℕ) × (xs : List ℕ) × (pile size frame left i (y ∷ free) ≡ x ∷ xs)
pile-cons size frame zero i y free = (y, free, refl)
pile-cons size frame (suc left) i y free = pile-cons size frame left (i + 1) _ (y ∷ free)

-- A slab has room for an object that fits.
pub pile-some :
    (size frame n : ℕ) → 0 < n → (x : ℕ) × (xs : List ℕ) × (pile size frame n 0 [] ≡ x ∷ xs)
pile-some size frame zero h = absurd (omega arith)
pile-some size frame (suc left) h = pile-cons size frame left 1 _ []
