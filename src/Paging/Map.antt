-- ===== src/Paging/Map.antt =====
-- paging_map and paging_unmap against the translation of addresses.
use xenon_os.Base.{
  ℕ, ◌+◌, ◌*◌, ◌/◌, ◌%◌, ◌^◌, ◌<◌, ◌≡◌, refl, true, false, ◌==◌, leb, if◌then◌else◌, bit_and,
  bit_or, Option, some, none, arith, ap, ap₂, ◌∙◌, ◌⊎◌, Bool-cases, inl, inr, sym, subst,
}
use xenon_os.Base.Bits.{bit_and_mask, bit_or-add}
use xenon_os.Base.Masks.{bit_and-page}
use xenon_os.Pmm.{frame_count}
use xenon_os.Pmm.Frames.{used}
use xenon_os.Paging.{
  Paging, recursive_index, flush_tlb_entry, store_entry, directory_index, is_present, ensure_table,
  paging_map, paging_unmap,
}
use xenon_os.Paging.Table.{translate-missing}
use xenon_os.Paging.Ensure.{ensure_table-cases}
use xenon_os.Paging.Mmu.{
  translate, through, entry_of, HasTable, IsValid, table_index-mod, is_present-mod,
  translate-store_entry, store_entry-IsValid,
}

flushed-translate :
    (address other : ℕ) (s : Paging)
    → translate (flush_tlb_entry address s) other ≡ translate s other
unfolding translate entry_of
flushed-translate address other s = refl

flushed-IsValid : (address : ℕ) (s : Paging) → IsValid s → IsValid (flush_tlb_entry address s)
flushed-IsValid address s v = record {
  allocator = v.allocator;
  tables_used = v.tables_used;
  apart = v.apart;
}

-- What paging_unmap does, past its two returns.
unmap-there :
    (address : ℕ) (s : Paging)
    → address / 2 ^ 22 < 1023
    → HasTable (address / 2 ^ 22) s
    → paging_unmap address s
      ≡ flush_tlb_entry address (store_entry (address / 2 ^ 22) (address / 2 ^ 12 % 1024) 0 s)
unfolding paging_unmap directory_index
unmap-there address s a h =
    let low : leb recursive_index (address / 2 ^ 22) ≡ false = ground arith in
    let there : is_present (address / 2 ^ 22) s ≡ true =
      is_present-mod (address / 2 ^ 22) s ∙ ground (arith, h) in
    rw (low, there, paging_unmap)
      (ap (λ (k : ℕ). flush_tlb_entry address (store_entry (address / 2 ^ 22) k 0 s))
        (table_index-mod address))

unmap-missing :
    (address : ℕ) (s : Paging)
    → (s.page_directory (address / 2 ^ 22) % 2 == 1) ≡ false
    → paging_unmap address s ≡ s
unfolding paging_unmap directory_index
unmap-missing address s e =
    let missing : is_present (address / 2 ^ 22) s ≡ false =
      is_present-mod (address / 2 ^ 22) s ∙ e in
    elim (Bool-cases (leb recursive_index (address / 2 ^ 22))) [
      | inl high ↦ rw (high, paging_unmap) refl
      | inr low ↦ rw (low, missing, paging_unmap) refl
    ]

-- On a valid state, below the window of the tables, paging_unmap takes away the translation of the page of its
-- address, if there is one, and leaves that of every other page.
pub paging_unmap_lem :
    (address other : ℕ) (s : Paging)
    → IsValid s
    → address / 2 ^ 22 < 1023
    → other / 2 ^ 22 < 1023
    → translate (paging_unmap address s) other
      ≡ (if other / 4096 == address / 4096 then none else translate s other)
paging_unmap_lem address other s v a b =
    elim (Bool-cases (s.page_directory (address / 2 ^ 22) % 2 == 1)) [
      | inl there ↦
          let h : HasTable (address / 2 ^ 22) s = ground arith in
          rw (unmap-there address s a h) (
            flushed-translate address other
              (store_entry (address / 2 ^ 22) (address / 2 ^ 12 % 1024) 0 s)
            ∙ translate-store_entry address 0 other s v a b h)
      | inr missing ↦ elim (Bool-cases (other / 4096 == address / 4096)) [
        | inl page ↦
            let same : other / 2 ^ 22 ≡ address / 2 ^ 22 = ground arith in
            ap (λ (x : Paging). translate x other) (unmap-missing address s missing)
            ∙ translate-missing other s (ap (λ (x : ℕ). s.page_directory x % 2 == 1) same ∙ missing)
            ∙ rw page refl
        | inr elsewhere ↦
            ap (λ (x : Paging). translate x other) (unmap-missing address s missing)
            ∙ rw elsewhere refl
      ]
    ]

-- The entry that paging_map writes.
map_entry :
    (physical flags : ℕ)
    → physical < 2 ^ 32
    → bit_or (bit_and physical 0xFFFFF000) (bit_and flags 0xFFF)
      ≡ physical / 4096 * 4096 + flags % 4096
map_entry physical flags h =
    ap (λ (x : ℕ). bit_or x (bit_and flags 0xFFF)) (bit_and-page physical h)
    ∙ ap (λ (x : ℕ). bit_or (physical / 4096 * 4096) x) (bit_and_mask 12 flags)
    ∙ bit_or-add 12 (physical / 4096) (flags % 4096) (omega arith)

pub map-done :
    (address physical flags : ℕ) (s s' : Paging)
    → physical < 2 ^ 32
    → address / 2 ^ 22 < 1023
    → ensure_table (address / 2 ^ 22) s ≡ (true, s')
    → paging_map address physical flags s
      ≡ flush_tlb_entry address (
          store_entry
            (address / 2 ^ 22)
            (address / 2 ^ 12 % 1024)
            (physical / 4096 * 4096 + flags % 4096)
            s')
unfolding paging_map directory_index
map-done address physical flags s s' h a e =
    let low : leb recursive_index (address / 2 ^ 22) ≡ false = ground arith in
    rw (low, e, paging_map)
      (ap
          (λ (k : ℕ). flush_tlb_entry address (
            store_entry (address / 2 ^ 22) k
              (bit_or (bit_and physical 0xFFFFF000) (bit_and flags 0xFFF)) s'))
          (table_index-mod address)
        ∙ ap
            (λ (v : ℕ).
              flush_tlb_entry address
                (store_entry (address / 2 ^ 22) (address / 2 ^ 12 % 1024) v s'))
            (map_entry physical flags h))

-- On a valid state, with the present flag, and below the window of the tables, paging_map makes
-- every address of the page translate to the same offset in the physical page, leaves the translation of every other
-- page, and keeps every table in a frame of its own. Only if the table is missing and every frame
-- is in use does it change nothing at all.
pub paging_map_lem :
    (address physical flags : ℕ) (s : Paging)
    → IsValid s
    → address / 2 ^ 22 < 1023
    → physical < 2 ^ 32
    → flags % 2 ≡ 1
    → ((paging_map address physical flags s ≡ s)
        × ((s.page_directory (address / 2 ^ 22) % 2 == 1) ≡ false)
        × ((f : ℕ) → f < frame_count → used s.pmm f ≡ 1))
      ⊎ (IsValid (paging_map address physical flags s)
          × ((other : ℕ)
              → other / 2 ^ 22 < 1023
              → translate (paging_map address physical flags s) other ≡ (
                  if other / 4096 == address / 4096
                  then some (physical / 4096 * 4096 + other % 4096)
                  else translate s other)))
unfolding paging_map directory_index
paging_map_lem address physical flags s v a h p =
    elim (ensure_table-cases (address / 2 ^ 22) s v a) [
      | inl (failed, missing, all_used) ↦
          let low : leb recursive_index (address / 2 ^ 22) ≡ false = ground arith in
          inl (rw (low, failed, paging_map) refl, missing, all_used)
      | inr (s', ok, ensured) ↦
          let done = map-done address physical flags s s' h a ok in
          let entry : ℕ = physical / 4096 * 4096 + flags % 4096 in
          let seen : (other : ℕ)
              → through entry other ≡ some (physical / 4096 * 4096 + other % 4096) =
            λ other. ground arith in
          let before : Paging = store_entry (address / 2 ^ 22) (address / 2 ^ 12 % 1024) entry s' in
          inr (
            subst IsValid (sym done) (
                flushed-IsValid address before (
                  store_entry-IsValid (address / 2 ^ 22) (address / 2 ^ 12 % 1024) entry s'
                    ensured.valid)),
            λ other b.
                ap (λ (x : Paging). translate x other) done
                ∙ flushed-translate address other before
                ∙ translate-store_entry address entry other s' ensured.valid a b ensured.has_table
                ∙ ap₂ (λ (x y : Option ℕ). if other / 4096 == address / 4096 then x else y)
                    (seen other) (ensured.kept other b),
          )
    ]
