-- ===== src/Tss/Descriptor.antt =====
-- The packing of segment descriptors.
use xenon_os.Base.{
  update-same, update-other, ◌≢◌, ℕ, ◌+◌, ◌*◌, ◌/◌, ◌%◌, ◌^◌, ◌<◌, ◌≡◌, arith, ap, ◌∙◌, bit_and,
  bit_or, update,
}
use xenon_os.Base.Bits.{bit_and_mask}
use xenon_os.Base.Masks.{bit_or-high}
use xenon_os.Tss.{Tss, descriptor, gdt_set_descriptor}

-- The fields of a descriptor, as the processor reads them.
abbrev pub base_of : ℕ → ℕ
base_of d = d / 2 ^ 16 % 2 ^ 24 + d / 2 ^ 56 % 2 ^ 8 * 2 ^ 24

abbrev pub limit_of : ℕ → ℕ
limit_of d = d % 2 ^ 16 + d / 2 ^ 48 % 2 ^ 4 * 2 ^ 16

abbrev pub access_of : ℕ → ℕ
access_of d = d / 2 ^ 40 % 2 ^ 8

abbrev pub granularity_of : ℕ → ℕ
granularity_of d = d / 2 ^ 52 % 2 ^ 4

or_field : (k q x : ℕ) (low : ℕ) → x ≡ low → low < 2 ^ k → bit_or x (q * 2 ^ k) ≡ q * 2 ^ k + low
or_field k q x low e lt = ap (λ (n : ℕ). bit_or n (q * 2 ^ k)) e ∙ bit_or-high k q low lt

-- The fields lie side by side, each in its place.
descriptor-sum :
    (base limit access granularity : ℕ)
    → access < 2 ^ 8
    → descriptor base limit access granularity
      ≡ base / 2 ^ 24 % 2 ^ 8 * 2 ^ 56
        + (granularity % 2 ^ 4 * 2 ^ 52
            + (limit / 2 ^ 16 % 2 ^ 4 * 2 ^ 48
                + (access * 2 ^ 40 + (base % 2 ^ 24 * 2 ^ 16 + limit % 2 ^ 16))))
unfolding descriptor
descriptor-sum base limit access granularity a =
    let low : bit_and limit 0xFFFF ≡ limit % 2 ^ 16 = bit_and_mask 16 limit in
    let mid : bit_and base 0xFFFFFF ≡ base % 2 ^ 24 = bit_and_mask 24 base in
    let high : bit_and (limit / 2 ^ 16) 0xF ≡ limit / 2 ^ 16 % 2 ^ 4 =
      bit_and_mask 4 (limit / 2 ^ 16) in
    let grain : bit_and granularity 0xF ≡ granularity % 2 ^ 4 = bit_and_mask 4 granularity in
    let top : bit_and (base / 2 ^ 24) 0xFF ≡ base / 2 ^ 24 % 2 ^ 8 =
      bit_and_mask 8 (base / 2 ^ 24) in
    rw (low, mid, high, grain, top)
      (or_field 56 (base / 2 ^ 24 % 2 ^ 8) _ _
        (or_field 52 (granularity % 2 ^ 4) _ _
          (or_field 48 (limit / 2 ^ 16 % 2 ^ 4) _ _
            (or_field 40 access _ _ (bit_or-high 16 (base % 2 ^ 24) (limit % 2 ^ 16) (omega arith))
              (omega arith))
            (omega arith))
          (omega arith))
        (omega arith))

-- A descriptor tells the processor the base, the limit of up to 20 bits, the access byte and the
-- flags that gdt_set_descriptor was given, and the other entries of the table stay.
pub gdt_set_descriptor_lem :
    (index base limit access granularity other : ℕ) (s : Tss)
    → base < 2 ^ 32
    → limit < 2 ^ 20
    → access < 2 ^ 8
    → granularity < 2 ^ 4
    → (base_of ((gdt_set_descriptor index base limit access granularity s).gdt index) ≡ base)
      × (limit_of ((gdt_set_descriptor index base limit access granularity s).gdt index) ≡ limit)
      × (access_of ((gdt_set_descriptor index base limit access granularity s).gdt index) ≡ access)
      × (granularity_of ((gdt_set_descriptor index base limit access granularity s).gdt index)
          ≡ granularity)
      × (other ≢ index
          → (gdt_set_descriptor index base limit access granularity s).gdt other ≡ s.gdt other)
unfolding gdt_set_descriptor
gdt_set_descriptor_lem index base limit access granularity other s b l a g =
    let d : ℕ = descriptor base limit access granularity in
    let sum = descriptor-sum base limit access granularity a in
    let here : update s.gdt index d index ≡ d = update-same s.gdt index d in
    (
      ap base_of here ∙ omega (arith, sum),
      ap limit_of here ∙ omega (arith, sum),
      ap access_of here ∙ omega (arith, sum),
      ap granularity_of here ∙ omega (arith, sum),
      λ ne. update-other s.gdt index other d ne,
    )
