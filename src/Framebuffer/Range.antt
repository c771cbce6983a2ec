-- ===== src/Framebuffer/Range.antt =====
-- The loop of map_framebuffer that maps the framebuffer of the hardware, against the translation of addresses.
use xenon_os.Base.{
  ℕ, zero, suc, ◌+◌, ◌*◌, ◌/◌, ◌<◌, ◌≤◌, ◌≡◌, ◌⊎◌, inl, inr, refl, true, false, ◌==◌, ltb, ◌&&◌,
  some, arith, ap, ◌∙◌, sym, subst, Bool-cases, add32, ℕ_discrete,
}
use xenon_os.Pmm.{page_size}
use xenon_os.Paging.{Paging, paging_map}
use xenon_os.Paging.Mmu.{translate, IsValid}
use xenon_os.Paging.Map.{paging_map_lem}
use xenon_os.Paging.Allocator.{paging_map-Grows}
use xenon_os.Paging.Spending.{paging_map-tables}
use xenon_os.Paging.Backed.{NoFrame}
use xenon_os.Framebuffer.{map_range, framebuffer_virtual_base, framebuffer_virtual_size}

-- One round, for page `i`.
abbrev round : ℕ → ℕ → Paging → Paging
round i physical_addr s =
    paging_map (framebuffer_virtual_base + i * 4096) (add32 physical_addr (i * 4096)) 3 s

more :
    (left i size physical_addr : ℕ) (s : Paging)
    → i * 4096 < size
    → i * 4096 < framebuffer_virtual_size
    → map_range (suc left) (i * 4096) size physical_addr s
      ≡ map_range left ((i + 1) * 4096) size physical_addr (round i physical_addr s)
unfolding map_range
more left i size physical_addr s inside window =
    let test : (ltb (i * 4096) size && ltb (i * 4096) framebuffer_virtual_size) ≡ true =
      ground (arith, inside, window) in
    let next : i * 4096 + page_size ≡ (i + 1) * 4096 = omega arith in
    rw (test, map_range)
      (ap (λ (n : ℕ). map_range left n size physical_addr (round i physical_addr s)) next)

done :
    (left i size physical_addr : ℕ) (s : Paging)
    → (ltb (i * 4096) size && ltb (i * 4096) framebuffer_virtual_size) ≡ false
    → map_range left (i * 4096) size physical_addr s ≡ s
unfolding map_range
done zero i size physical_addr s e = refl
done (suc left) i size physical_addr s e = rw (e, map_range) refl

-- What a property of the state needs to pass through the loop.
map_range-keeps :
    (P : Paging → Type 0)
    → (physical_addr : ℕ)
    → ((i : ℕ) (s : Paging)
        → i * 4096 < framebuffer_virtual_size
        → P s
        → P (round i physical_addr s))
    → (left i size : ℕ) (s : Paging) → P s
    → P (map_range left (i * 4096) size physical_addr s)
unfolding map_range
map_range-keeps P physical_addr step zero i size s p = p
map_range-keeps P physical_addr step (suc left) i size s p =
    elim (Bool-cases (ltb (i * 4096) size && ltb (i * 4096) framebuffer_virtual_size)) [
      | inr ended ↦ subst P (sym (done (suc left) i size physical_addr s ended)) p
      | inl test ↦
          let inside : i * 4096 < size = ground (arith, test) in
          let window : i * 4096 < framebuffer_virtual_size = ground (arith, test) in
          subst P (sym (more left i size physical_addr s inside window))
            (map_range-keeps P physical_addr step left (i + 1) size _ (step i s window p))
    ]

pub map_range-IsValid :
    (left i size physical_addr : ℕ) (s : Paging)
    → IsValid s
    → IsValid (map_range left (i * 4096) size physical_addr s)
map_range-IsValid left i size physical_addr s v =
    map_range-keeps IsValid physical_addr
      (λ k s' window v'. paging_map-tables _ _ s' (omega arith) v') left i size s v

-- The page of `k` leads to its part of the framebuffer, or every frame is in use.
abbrev pub Shows : ℕ → ℕ → Paging → Type 0
Shows physical_addr k s =
    (translate s (framebuffer_virtual_base + k * 4096)
      ≡ some (add32 physical_addr (k * 4096) / 4096 * 4096))
    ⊎ NoFrame s.pmm

-- The rounds after page `k` leave it.
later-Shows :
    (left i k size physical_addr : ℕ) (s : Paging)
    → k < i
    → k * 4096 < framebuffer_virtual_size
    → IsValid s
    → Shows physical_addr k s
    → Shows physical_addr k (map_range left (i * 4096) size physical_addr s)
unfolding map_range
later-Shows zero i k size physical_addr s before low v shows = shows
later-Shows (suc left) i k size physical_addr s before low v shows =
    elim (Bool-cases (ltb (i * 4096) size && ltb (i * 4096) framebuffer_virtual_size)) [
      | inr ended ↦
          subst (Shows physical_addr k) (sym (done (suc left) i size physical_addr s ended)) shows
      | inl test ↦
          let inside : i * 4096 < size = ground (arith, test) in
          let window : i * 4096 < framebuffer_virtual_size = ground (arith, test) in
          let next : Paging = round i physical_addr s in
          let kept : Shows physical_addr k next = elim shows [
            | inr all_used ↦
                inr (λ f lt. (paging_map-Grows _ _ 3 s v.allocator).1 f (all_used f lt))
            | inl found ↦
                elim (paging_map_lem (framebuffer_virtual_base + i * 4096)
                  (add32 physical_addr (i * 4096)) 3 s v (omega arith) (omega arith) refl) [
                    | inl (same, _, all_used) ↦
                        inr (subst (λ (p : Paging). NoFrame p.pmm) (sym same) all_used)
                    | inr (_, pages) ↦
                        let apart : ((framebuffer_virtual_base + k * 4096) / 4096
                              == (framebuffer_virtual_base + i * 4096) / 4096)
                            ≡ false =
                          ground (arith, before) in
                        inl (
                          pages (framebuffer_virtual_base + k * 4096) (omega arith)
                          ∙ rw apart found)
                  ]
          ] in
          subst (Shows physical_addr k) (sym (more left i size physical_addr s inside window)) (
            later-Shows left (i + 1) k size physical_addr next (omega arith) low
              (paging_map-tables _ _ s (omega arith) v) kept)
    ]

pub map_range-Shows :
    (left i k size physical_addr : ℕ) (s : Paging)
    → IsValid s
    → i ≤ k
    → k < i + left
    → k * 4096 < size
    → k * 4096 < framebuffer_virtual_size
    → Shows physical_addr k (map_range left (i * 4096) size physical_addr s)
map_range-Shows zero i k size physical_addr s v from until inside low = absurd (omega arith)
map_range-Shows (suc left) i k size physical_addr s v from until inside low =
    let valid : IsValid (round i physical_addr s) = paging_map-tables _ _ s (omega arith) v in
    subst (Shows physical_addr k)
      (sym (more left i size physical_addr s (omega arith) (omega arith)))
      (elim (ℕ_discrete i k) [
        | no other ↦
            map_range-Shows left (i + 1) k size physical_addr _ valid (omega (arith, other))
              (omega arith) inside low
        | yes here ↦
            later-Shows left (i + 1) k size physical_addr _ (omega (arith, here)) low valid (
              subst (λ n. Shows physical_addr n (round i physical_addr s)) here
                (elim (paging_map_lem (framebuffer_virtual_base + i * 4096)
                  (add32 physical_addr (i * 4096)) 3 s v (omega arith) (omega arith) refl) [
                    | inl (same, _, all_used) ↦
                        inr (subst (λ (p : Paging). NoFrame p.pmm) (sym same) all_used)
                    | inr (_, pages) ↦
                        inl
                          (pages (framebuffer_virtual_base + i * 4096) (omega arith) ∙ ground arith)
                  ]))
      ])
