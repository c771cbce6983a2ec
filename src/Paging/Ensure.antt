-- ===== src/Paging/Ensure.antt =====
-- The table that paging_map creates for a directory entry that has none.
use xenon_os.Base.{
  ℕ, ◌+◌, ◌*◌, ◌%◌, ◌<◌, ◌≡◌, refl, true, false, ◌==◌, bit_and, bit_or, update, arith, ap, ◌∙◌, ◌⊎◌,
  Bool-cases, inl, inr,
}
use xenon_os.Base.Bits.{bit_or-add}
use xenon_os.Base.Masks.{bit_and-page}
use xenon_os.Pmm.{page_size, pmm_alloc, no_frame, frame_count}
use xenon_os.Pmm.Frames.{used}
use xenon_os.Pmm.Alloc.{pmm_alloc-cases}
use xenon_os.Pmm.Bounds.{pmm_alloc-IsValid}
use xenon_os.Paging.{
  Paging, page_table_entries, flush_tlb_entry, clear_table, create_table, ensure_table,
  page_table_virtual,
}
use xenon_os.Paging.Mmu.{IsValid, is_present-mod}
use xenon_os.Paging.Table.{Ensured, with_table, with_table-Ensured}

create_table-ok :
    (i : ℕ) (s : Paging) (f : ℕ)
    → f < frame_count
    → (pmm_alloc s.pmm).0 ≡ f * page_size
    → create_table i s ≡ (true, with_table i s f (pmm_alloc s.pmm).1)
unfolding create_table
create_table-ok i s f lt e =
    let in_range : (f * page_size == no_frame) ≡ false = ground arith in
    let entry : bit_or (bit_and (f * page_size) 0xFFFFF000) 3 ≡ f * 4096 + 3 =
      ap (λ (x : ℕ). bit_or x 3) (bit_and-page (f * page_size) (omega arith) ∙ omega arith)
      ∙ bit_or-add 12 f 3 (omega arith) in
    rw (e, in_range, create_table)
      (ap
        (λ (x : ℕ). (
          true,
          clear_table page_table_entries 0 i (
              flush_tlb_entry (page_table_virtual i) (record s {
                pmm = (pmm_alloc s.pmm).1;
                page_directory = update s.page_directory i x;
              })),
        ))
        entry)

-- What paging_map does about the table: it is there after it, or no frame was left for it.
pub ensure_table-cases :
    (i : ℕ) (s : Paging)
    → IsValid s
    → i < 1023
    → ((ensure_table i s ≡ (false, s))
        × ((s.page_directory i % 2 == 1) ≡ false)
        × ((f : ℕ) → f < frame_count → used s.pmm f ≡ 1))
      ⊎ ((s' : Paging) × (ensure_table i s ≡ (true, s')) × Ensured i s s')
unfolding ensure_table create_table
ensure_table-cases i s v low = elim (Bool-cases (s.page_directory i % 2 == 1)) [
  | inl there ↦ inr (
    s,
    rw (is_present-mod i s ∙ there, ensure_table) refl,
    record { valid = v; has_table = ground arith; kept = λ other h. refl },
  )
  | inr missing ↦ elim (pmm_alloc-cases v.allocator) [
    | inl (none_free, all_used) ↦ inl (
      rw (is_present-mod i s ∙ missing, ensure_table) (rw (none_free, create_table) refl),
      missing,
      all_used,
    )
    | inr (f, lt, address, free, taken) ↦ inr (
      with_table i s f (pmm_alloc s.pmm).1,
      rw (is_present-mod i s ∙ missing, ensure_table) (create_table-ok i s f lt address),
      with_table-Ensured i s f (pmm_alloc s.pmm).1 v low missing (pmm_alloc-IsValid v.allocator)
          free taken,
    )
  ]
]
