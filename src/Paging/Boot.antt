-- ===== src/Paging/Boot.antt =====
-- paging_initialize: the first 4 MB stay where they are, and nothing else is mapped.
use xenon_os.Base.{
  ℕ, zero, suc, ◌+◌, ◌*◌, ◌/◌, ◌%◌, ◌^◌, ◌<◌, ◌≡◌, refl, ◌&&◌, ◌==◌, leb, ltb, if◌then◌else◌,
  bit_or, update, some, none, arith, ap, ap₂, ◌∙◌, Bool-cases, inl, inr, sym, subst,
}
use xenon_os.Base.Bits.{bit_or-add}
use xenon_os.Pmm.{Pmm, page_size}
use xenon_os.Pmm.Frames.{used}
use xenon_os.Pmm.Bounds
use xenon_os.Paging.{
  Paging, page_table_entries, recursive_index, clear_directory, identity_map, paging_initialize,
}
use xenon_os.Paging.Mmu.{translate, decode, entry_of, HasTable, IsValid}
use xenon_os.Paging.Table.{translate-missing}

clear_directory-at :
    (left i j : ℕ) (s : Paging)
    → (clear_directory left i s).page_directory j
      ≡ (if leb i j && ltb j (i + left) then 2 else s.page_directory j)
unfolding clear_directory
clear_directory-at zero i j s = ground arith
clear_directory-at (suc left) i j s =
    let step : Paging = record s { page_directory = update s.page_directory i 2 } in
    ground (arith, clear_directory-at left (i + 1) j step)

clear_directory-pmm : (left i : ℕ) (s : Paging) → (clear_directory left i s).pmm ≡ s.pmm
unfolding clear_directory
clear_directory-pmm zero i s = refl
clear_directory-pmm (suc left) i s =
    clear_directory-pmm left (i + 1) (record s { page_directory = update s.page_directory i 2 })

identity_map-kept :
    (left i boot : ℕ) (s : Paging)
    → ((identity_map left i boot s).page_directory ≡ s.page_directory)
      × ((identity_map left i boot s).pmm ≡ s.pmm)
unfolding identity_map
identity_map-kept zero i boot s = (refl, refl)
identity_map-kept (suc left) i boot s = identity_map-kept left (i + 1) boot (record s {
  frames = update s.frames boot (update (s.frames boot) i (bit_or (i * page_size) 3));
})

identity_map-at :
    (left i boot l : ℕ) (s : Paging)
    → (identity_map left i boot s).frames boot l
      ≡ (if leb i l && ltb l (i + left) then l * 4096 + 3 else s.frames boot l)
unfolding identity_map
identity_map-at zero i boot l s = ground arith
identity_map-at (suc left) i boot l s =
    let entry = bit_or-add 12 i 3 (omega arith) in
    let step : Paging = record s {
      frames = update s.frames boot (update (s.frames boot) i (bit_or (i * page_size) 3));
    } in
    ground (arith, identity_map-at left (i + 1) boot l step, entry)

module _ (directory boot : ℕ) (s : Paging) where
  abbrev pub booted : Paging
  booted = paging_initialize directory (boot * 4096) s

  -- The state in front of the second loop.
  abbrev recursive : Paging
  recursive = record (clear_directory 1024 0 s) {
    page_directory =
        update (clear_directory 1024 0 s).page_directory recursive_index (bit_or directory 3);
  }

  booted-directory :
      (j : ℕ) → j < 1023 → booted.page_directory j ≡ (if j == 0 then boot * 4096 + 3 else 2)
  unfolding paging_initialize
  booted-directory j h =
      let entry = bit_or-add 12 boot 3 (omega arith) in
      let same =
        ap (λ (d : ℕ → ℕ). d j)
          (identity_map-kept page_table_entries 0 (boot * 4096 / page_size) recursive).0 in
      let inner : recursive.page_directory j ≡ 2 = ground (arith, clear_directory-at 1024 0 j s) in
      ground (arith, entry, same, inner)

  booted-frames : (l : ℕ) → l < 1024 → booted.frames boot l ≡ l * 4096 + 3
  unfolding paging_initialize
  booted-frames l h =
      let frame : boot * 4096 / page_size ≡ boot = omega arith in
      ap (λ (b : ℕ). (identity_map page_table_entries 0 b recursive).frames boot l) frame
      ∙ identity_map-at page_table_entries 0 boot l recursive
      ∙ ground arith

  pub booted-pmm : booted.pmm ≡ s.pmm
  unfolding paging_initialize
  booted-pmm =
      (identity_map-kept page_table_entries 0 (boot * 4096 / page_size) recursive).1
      ∙ clear_directory-pmm 1024 0 s

  booted-IsValid : Bounds.IsValid s.pmm → used s.pmm boot ≡ 1 → IsValid booted
  booted-IsValid v taken =
      let only : (j : ℕ) → j < 1023 → HasTable j booted → j ≡ 0 =
        λ j h t. ground (arith, booted-directory j h, t) in
      record {
        allocator = subst (λ (p : Pmm). Bounds.IsValid p) (sym booted-pmm) v;
        tables_used = λ j h t.
            let frame : booted.page_directory j / 4096 ≡ boot =
              ground (arith, booted-directory j h, only j h t) in
            ap₂ used booted-pmm frame ∙ taken;
        apart = λ i j a b t u _. only i a t ∙ sym (only j b u);
      }

  -- After paging_initialize every address below 4 MB translates to itself, and no other address
  -- below the window of the tables has a translation. When the frame of the boot table is in use,
  -- every table has a frame of its own.
  pub paging_initialize_lem :
      Bounds.IsValid s.pmm
      → used s.pmm boot ≡ 1
      → IsValid booted
        × ((address : ℕ)
            → address / 2 ^ 22 < 1023
            → translate booted address ≡ (if ltb address (2 ^ 22) then some address else none))
  unfolding translate entry_of
  paging_initialize_lem v taken = (
    booted-IsValid v taken,
    λ address h. elim (Bool-cases (ltb address (2 ^ 22))) [
      | inl inside ↦
          let j : ℕ = address / 2 ^ 22 in
          let l : ℕ = address / 2 ^ 12 % 1024 in
          let d : ℕ = boot * 4096 + 3 in
          let dir : booted.page_directory j ≡ d = ground (arith, booted-directory j h, inside) in
          ap (λ (x : ℕ). decode x (booted.frames (x / 4096) l) address) dir
          ∙ ap (λ (f : ℕ). decode d (booted.frames f l) address) (omega arith)
          ∙ ap (λ (e : ℕ). decode d e address) (booted-frames l (omega arith))
          ∙ ground (arith, inside)
      | inr outside ↦
          translate-missing address booted
            (ground (arith, booted-directory (address / 2 ^ 22) h, outside))
          ∙ rw outside refl
    ],
  )
