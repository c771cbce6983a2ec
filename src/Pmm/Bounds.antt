-- ===== src/Pmm/Bounds.antt =====
-- The invariant of the allocator's state, and that every operation keeps it.
use xenon_os.Base.{
  ℕ, zero, suc, ◌+◌, ◌-◌, ◌/◌, ◌%◌, ◌^◌, ◌≤◌, ◌<◌, ◌≡◌, ◌≢◌, ◌⊎◌, inl, inr, some, none, arith, ◌==◌,
  Option-cases, Bool-cases, dec_lt,
}
use xenon_os.Base.Bits.{bit_or-lt, bit_and-lt, pow-lt, complement}
use xenon_os.Pmm.{
  Pmm, bitmap_size, page_size, full_word, set_frame, clear_frame, set_frames, clear_frames, scan,
  first_free_frame, free_region, reserve_region, pmm_alloc, pmm_free, no_frame, free_in_word,
}

-- Every word fits 32 bits, and the search starts inside the bitmap.
pub record IsValid (p : Pmm) : Type 0 where
  pub words : (i : ℕ) → p.bitmap i < 2 ^ 32
  pub hint : p.search_hint < bitmap_size

pub set_frame-IsValid : (f : ℕ) {p : Pmm} → IsValid p → IsValid (set_frame f p)
unfolding set_frame
set_frame-IsValid f {p} v = record {
  words = λ i. ground (
    arith,
    v.words i,
    bit_or-lt 32 (p.bitmap (f / 32)) (2 ^ (f % 32)) (v.words (f / 32))
        (pow-lt 32 (f % 32) (omega arith)),
  );
  hint = v.hint;
}

pub clear_frame-IsValid : (f : ℕ) {p : Pmm} → IsValid p → IsValid (clear_frame f p)
unfolding clear_frame
clear_frame-IsValid f {p} v = record {
  words = λ i. ground (
    arith,
    v.words i,
    bit_and-lt 32 (p.bitmap (f / 32)) (complement 32 (2 ^ (f % 32))) (v.words (f / 32)),
  );
  hint = v.hint;
}

set_frames-IsValid : (n f : ℕ) {p : Pmm} → IsValid p → IsValid (set_frames n f p)
unfolding set_frames
set_frames-IsValid zero f v = v
set_frames-IsValid (suc n) f v = set_frames-IsValid n (f + 1) (set_frame-IsValid f v)

clear_frames-IsValid : (n f : ℕ) {p : Pmm} → IsValid p → IsValid (clear_frames n f p)
unfolding clear_frames
clear_frames-IsValid zero f v = v
clear_frames-IsValid (suc n) f v = clear_frames-IsValid n (f + 1) (clear_frame-IsValid f v)

pub free_region-IsValid : (base size : ℕ) {p : Pmm} → IsValid p → IsValid (free_region base size p)
unfolding free_region
free_region-IsValid base size v = clear_frames-IsValid _ _ v

pub reserve_region-IsValid :
    (base size : ℕ) {p : Pmm} → IsValid p → IsValid (reserve_region base size p)
unfolding reserve_region
reserve_region-IsValid base size v = set_frames-IsValid _ _ v

-- What the scan finds: the first word of its range that is not full, if there is one.
pub scan-some :
    (bitmap : ℕ → ℕ) (n i j : ℕ)
    → scan bitmap n i ≡ some j
    → (i ≤ j) × (j < i + n) × (bitmap j ≢ full_word)
unfolding scan
scan-some bitmap zero i j h = cc
scan-some bitmap (suc n) i j h = ground (arith, scan-some bitmap n (i + 1) j)

pub scan-none :
    (bitmap : ℕ → ℕ) (n i j : ℕ) → scan bitmap n i ≡ none → i ≤ j → j < i + n → bitmap j ≡ full_word
unfolding scan
scan-none bitmap zero i j h p q = absurd (omega arith)
scan-none bitmap (suc n) i j h p q = ground (arith, scan-none bitmap n (i + 1) j)

-- The two ways in which the search for a free frame can end.
abbrev pub NoneFree : Pmm → Type 0
NoneFree p =
    (first_free_frame p ≡ (no_frame, p)) × ((j : ℕ) → j < bitmap_size → p.bitmap j ≡ full_word)

abbrev pub FoundIn : Pmm → ℕ → Type 0
FoundIn p i =
    (i < bitmap_size)
    × (p.bitmap i ≢ full_word)
    × (first_free_frame p ≡ (free_in_word p i, record p { search_hint = i }))

all_words_full :
    {p : Pmm}
    → IsValid p
    → scan p.bitmap (bitmap_size - p.search_hint) p.search_hint ≡ none
    → scan p.bitmap p.search_hint 0 ≡ none
    → (j : ℕ) → j < bitmap_size
    → p.bitmap j ≡ full_word
all_words_full {p} v e e' j h = elim (dec_lt j p.search_hint) [
  | yes below ↦ scan-none p.bitmap p.search_hint 0 j e' (omega arith) (omega arith)
  | no above ↦
      scan-none p.bitmap (bitmap_size - p.search_hint) p.search_hint j e (omega arith)
        (omega (arith, v.hint))
]

pub first_free_frame-cases : {p : Pmm} → IsValid p → NoneFree p ⊎ ((i : ℕ) × FoundIn p i)
unfolding first_free_frame
first_free_frame-cases {p} v =
    elim (Option-cases (scan p.bitmap (bitmap_size - p.search_hint) p.search_hint)) [
      | inr (i, e) ↦
          let found = scan-some p.bitmap (bitmap_size - p.search_hint) p.search_hint i e in
          inr (i, (omega (arith, found.1, v.hint), found.2, rw (e, first_free_frame)))
      | inl e ↦ elim (Option-cases (scan p.bitmap p.search_hint 0)) [
        | inr (i, e') ↦
            let found = scan-some p.bitmap p.search_hint 0 i e' in
            inr (
              i,
              (
                omega (arith, found.1, v.hint),
                found.2,
                rw (e, first_free_frame) (rw (e', first_free_frame)),
              ),
            )
        | inl e' ↦ inl (rw (e, first_free_frame) (rw (e', first_free_frame)), all_words_full v e e')
      ]
    ]

pub first_free_frame-IsValid : {p : Pmm} → IsValid p → IsValid (first_free_frame p).1
first_free_frame-IsValid {p} v = elim (first_free_frame-cases v) [
  | inl none_free ↦ rw none_free.0 v
  | inr (i, found) ↦ rw found.2 (record { words = v.words; hint = found.0 })
]

-- pmm_alloc keeps the invariant.
pub pmm_alloc-IsValid : {p : Pmm} → IsValid p → IsValid (pmm_alloc p).1
pmm_alloc-IsValid {p} v = elim (Bool-cases ((first_free_frame p).0 == no_frame)) [
  | inl e ↦ unfold pmm_alloc in rw (e) (first_free_frame-IsValid v)
  | inr e ↦ unfold pmm_alloc in rw (e) (set_frame-IsValid _ (first_free_frame-IsValid v))
]

-- pmm_free keeps the invariant.
pub pmm_free-IsValid : (address : ℕ) {p : Pmm} → IsValid p → IsValid (pmm_free address p)
unfolding pmm_free
pmm_free-IsValid address {p} v =
    let v' = clear_frame-IsValid (address / page_size) v in
    record { words = λ i. ground (arith, v'.words i); hint = ground (arith, v'.hint) }
