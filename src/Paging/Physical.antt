-- ===== src/Paging/Physical.antt =====
-- paging_get_physical reads what paging_map has written.
use xenon_os.Base.{
  ℕ, ◌+◌, ◌*◌, ◌/◌, ◌%◌, ◌^◌, ◌<◌, ◌≡◌, true, false, leb, bit_and, arith, ap, ◌∙◌, inl, inr,
}
use xenon_os.Base.Masks.{bit_and-page}
use xenon_os.Pmm.{page_size, frame_count}
use xenon_os.Pmm.Frames.{used}
use xenon_os.Paging.{
  Paging, recursive_index, flush_tlb_entry, store_entry, load_entry, directory_index, is_present,
  paging_map, paging_get_physical,
}
use xenon_os.Paging.Ensure.{ensure_table-cases}
use xenon_os.Paging.Map.{map-done}
use xenon_os.Paging.Mmu.{entry_of, HasTable, IsValid, table_index-mod, is_present-mod, stored}

pub get_physical-present :
    (address : ℕ) (s : Paging)
    → address / 2 ^ 22 < 1023
    → HasTable (address / 2 ^ 22) s
    → entry_of s address < 2 ^ 32
    → paging_get_physical address s ≡ entry_of s address / 4096 * 4096
unfolding paging_get_physical directory_index load_entry entry_of
get_physical-present address s a h small =
    let low : leb recursive_index (address / 2 ^ 22) ≡ false = ground arith in
    let there : is_present (address / 2 ^ 22) s ≡ true =
      is_present-mod (address / 2 ^ 22) s ∙ ground (arith, h) in
    rw (low, there, paging_get_physical)
      (ap
          (λ (k : ℕ).
            bit_and (s.frames (s.page_directory (address / 2 ^ 22) / page_size) k) 0xFFFFF000)
          (table_index-mod address)
        ∙ bit_and-page (entry_of s address) small)

entry_of-stored :
    (address value other : ℕ) (s : Paging)
    → other / 4096 ≡ address / 4096
    → entry_of (store_entry (address / 2 ^ 22) (address / 2 ^ 12 % 1024) value s) other ≡ value
unfolding entry_of store_entry
entry_of-stored address value other s e =
    let i : other / 2 ^ 22 ≡ address / 2 ^ 22 = ground arith in
    let k : other / 2 ^ 12 % 1024 ≡ address / 2 ^ 12 % 1024 = ground arith in
    stored (address / 2 ^ 22) (address / 2 ^ 12 % 1024) value (other / 2 ^ 22)
      (other / 2 ^ 12 % 1024) s
    ∙ ground (arith, ap (λ (x : ℕ). s.page_directory x / 4096) i, k)

-- On a valid state, below the window of the tables, and while a frame is left for a table,
-- paging_get_physical gives back the physical page that
-- paging_map was given, at every address of the page.
pub paging_get_physical-paging_map :
    (address physical flags other f : ℕ) (s : Paging)
    → IsValid s
    → address / 2 ^ 22 < 1023
    → physical < 2 ^ 32
    → other / 4096 ≡ address / 4096
    → f < frame_count
    → used s.pmm f ≡ 0
    → paging_get_physical other (paging_map address physical flags s) ≡ physical / 4096 * 4096
unfolding store_entry entry_of
paging_get_physical-paging_map address physical flags other f s v a h e lt free =
    elim (ensure_table-cases (address / 2 ^ 22) s v a) [
      | inl (_, _, all_used) ↦ absurd (ground (arith, all_used f lt, free))
      | inr (s', ok, ensured) ↦
          let entry : ℕ = physical / 4096 * 4096 + flags % 4096 in
          let before : Paging = store_entry (address / 2 ^ 22) (address / 2 ^ 12 % 1024) entry s' in
          let found : entry_of before other ≡ entry = entry_of-stored address entry other s' e in
          let same : other / 2 ^ 22 ≡ address / 2 ^ 22 = ground arith in
          let has : HasTable (other / 2 ^ 22) (flush_tlb_entry address before) =
            ap (λ (x : ℕ). s'.page_directory x % 2) same ∙ ensured.has_table in
          ap (paging_get_physical other) (map-done address physical flags s s' h a ok)
          ∙ get_physical-present other (flush_tlb_entry address before) (omega (arith, same)) has
              (omega (arith, found))
          ∙ ap (λ (x : ℕ). x / 4096 * 4096) found
          ∙ omega arith
    ]
