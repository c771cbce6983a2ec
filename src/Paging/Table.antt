-- ===== src/Paging/Table.antt =====
-- A frame as the new, cleared table of a directory entry that had none.
use xenon_os.Base.{
  ℕ, zero, suc, ◌+◌, ◌*◌, ◌/◌, ◌%◌, ◌^◌, ◌<◌, ◌≡◌, ◌≢◌, refl, false, ◌&&◌, ◌==◌, leb, ltb,
  if◌then◌else◌, update, update-same, none, arith, ap, ◌∙◌, ◌⊎◌, Bool-cases, inl, inr, sym, subst,
}
use xenon_os.Pmm.{Pmm}
use xenon_os.Pmm.Frames.{used}
use xenon_os.Pmm.Bounds
use xenon_os.Pmm.Bounds.{pmm_alloc-IsValid}
use xenon_os.Paging.{
  Paging, page_table_entries, flush_tlb_entry, store_entry, clear_table, page_table_virtual,
}
use xenon_os.Paging.Mmu.{translate, decode, entry_of, HasTable, IsValid}

clear_table-kept :
    (left k index : ℕ) (s : Paging)
    → ((clear_table left k index s).page_directory ≡ s.page_directory)
      × ((clear_table left k index s).pmm ≡ s.pmm)
unfolding clear_table store_entry
clear_table-kept zero k index s = (refl, refl)
clear_table-kept (suc left) k index s =
    clear_table-kept left (k + 1) index (store_entry index k 0 s)

stored_at :
    (index k value g l : ℕ) (s : Paging)
    → (store_entry index k value s).frames g l
      ≡ (if g == s.page_directory index / 4096 && l == k then value else s.frames g l)
unfolding store_entry
stored_at index k value g l s = ground arith

clear_table-at :
    (left k index g l : ℕ) (s : Paging)
    → (clear_table left k index s).frames g l ≡ (
        if g == s.page_directory index / 4096 && (leb k l && ltb l (k + left))
        then 0
        else s.frames g l)
unfolding clear_table store_entry
clear_table-at zero k index g l s = ground arith
clear_table-at (suc left) k index g l s =
    let rest = clear_table-at left (k + 1) index g l (store_entry index k 0 s) in
    let step = stored_at index k 0 g l s in ground (arith, rest, step)

pub translate-missing :
    (address : ℕ) (s : Paging)
    → (s.page_directory (address / 2 ^ 22) % 2 == 1) ≡ false
    → translate s address ≡ none
unfolding translate
translate-missing address s e = rw e refl

decode-zero : (directory_entry address : ℕ) → decode directory_entry 0 address ≡ none
decode-zero d address = elim (Bool-cases (d % 2 == 1)) [ inl p ↦ rw p refl | inr p ↦ rw p refl ]

-- What a new table leaves: it is valid, it has the table, and it translates as before.
pub record Ensured (i : ℕ) (s s' : Paging) : Type 0 where
  pub valid : IsValid s'
  pub has_table : HasTable i s'
  pub kept : (other : ℕ) → other / 2 ^ 22 < 1023 → translate s' other ≡ translate s other

module _ (i : ℕ) (s : Paging) (f : ℕ) (pmm : Pmm) where
  abbrev pub entered : Paging
  entered =
      flush_tlb_entry (page_table_virtual i)
        (record s { pmm = pmm; page_directory = update s.page_directory i (f * 4096 + 3) })

  -- The frame `f` as the cleared table of entry `i`.
  abbrev pub with_table : Paging
  with_table = clear_table page_table_entries 0 i entered

  with_table-directory :
      (j : ℕ) → with_table.page_directory j ≡ (if i == j then f * 4096 + 3 else s.page_directory j)
  with_table-directory j =
      ap (λ (d : ℕ → ℕ). d j) (clear_table-kept page_table_entries 0 i entered).0

  with_table-frames :
      (g l : ℕ) → l < 1024 → with_table.frames g l ≡ (if g == f then 0 else s.frames g l)
  with_table-frames g l h = ground (
    arith,
    clear_table-at page_table_entries 0 i g l entered,
    update-same s.page_directory i (f * 4096 + 3),
  )

  with_table-pmm : with_table.pmm ≡ pmm
  with_table-pmm = (clear_table-kept page_table_entries 0 i entered).1

  module _ (v : IsValid s) (low : i < 1023) (missing : (s.page_directory i % 2 == 1) ≡ false)
      (allocator : Bounds.IsValid pmm) (free : used s.pmm f ≡ 0)
      (taken : (g : ℕ) → used pmm g ≡ (if f == g then 1 else used s.pmm g)) where
    -- A table that was there has another frame.
    old_table-apart : (j : ℕ) → j < 1023 → HasTable j s → s.page_directory j / 4096 ≢ f
    old_table-apart j h t e = absurd (ground (arith, v.tables_used j h t, free, ap (used s.pmm) e))

    with_table-used :
        (j : ℕ)
        → j < 1023
        → HasTable j with_table
        → used with_table.pmm (with_table.page_directory j / 4096) ≡ 1
    with_table-used j h t = elim (Bool-cases (i == j)) [
      | inl new ↦
          let e : with_table.page_directory j / 4096 ≡ f =
            ground (arith, with_table-directory j, new) in
          rw (with_table-pmm, e, taken f) (ground arith)
      | inr old ↦
          let e : with_table.page_directory j ≡ s.page_directory j =
            with_table-directory j ∙ rw old refl in
          let t' : HasTable j s = rw e at t in
          rw (with_table-pmm, e, taken (s.page_directory j / 4096))
            (ground (arith, v.tables_used j h t'))
    ]

    -- An entry of the new directory is the new one or an old one.
    which :
        (j : ℕ)
        → HasTable j with_table
        → ((i ≡ j) × (with_table.page_directory j / 4096 ≡ f))
          ⊎ ((i ≢ j) × (with_table.page_directory j ≡ s.page_directory j) × HasTable j s)
    which j t = elim (Bool-cases (i == j)) [
      | inl new ↦ inl (ground arith, ground (arith, with_table-directory j, new))
      | inr old ↦
          let e : with_table.page_directory j ≡ s.page_directory j =
            with_table-directory j ∙ rw old refl in
          inr (ground arith, e, rw e at t)
    ]

    with_table-apart :
        (j k : ℕ)
        → j < 1023
        → k < 1023
        → HasTable j with_table
        → HasTable k with_table
        → with_table.page_directory j / 4096 ≡ with_table.page_directory k / 4096
        → j ≡ k
    with_table-apart j k a b t u e = elim (which j t) [
      | inl (new_j, at_j) ↦ elim (which k u) [
        | inl (new_k, _) ↦ sym new_j ∙ new_k
        | inr (_, same_k, t_k) ↦
            absurd (old_table-apart k b t_k (ap (λ (x : ℕ). x / 4096) (sym same_k) ∙ sym e ∙ at_j))
      ]
      | inr (_, same_j, t_j) ↦ elim (which k u) [
        | inl (_, at_k) ↦
            absurd (old_table-apart j a t_j (ap (λ (x : ℕ). x / 4096) (sym same_j) ∙ e ∙ at_k))
        | inr (_, same_k, t_k) ↦
            v.apart j k a b t_j t_k
              (ap (λ (x : ℕ). x / 4096) (sym same_j) ∙ e ∙ ap (λ (x : ℕ). x / 4096) same_k)
      ]
    ]

    with_table-kept :
        (other : ℕ) → other / 2 ^ 22 < 1023 → translate with_table other ≡ translate s other
    unfolding translate entry_of
    with_table-kept other h =
        let j : ℕ = other / 2 ^ 22 in
        let l : ℕ = other / 2 ^ 12 % 1024 in
        elim (Bool-cases (i == j)) [
          | inl new ↦
              let here : with_table.page_directory j / 4096 ≡ f =
                ground (arith, with_table-directory j, new) in
              let blank : with_table.frames (with_table.page_directory j / 4096) l ≡ 0 =
                with_table-frames (with_table.page_directory j / 4096) l (omega arith)
                ∙ ground (arith, here) in
              let none_before : (s.page_directory j % 2 == 1) ≡ false =
                ap (λ (x : ℕ). s.page_directory x % 2 == 1) (ground arith) ∙ missing in
              ap (λ (e : ℕ). decode (with_table.page_directory j) e other) blank
              ∙ decode-zero (with_table.page_directory j) other
              ∙ sym (translate-missing other s none_before)
          | inr old ↦
              let e : with_table.page_directory j ≡ s.page_directory j =
                with_table-directory j ∙ rw old refl in
              elim (Bool-cases (s.page_directory j % 2 == 1)) [
                | inl there ↦
                    let apart = old_table-apart j h (ground arith) in
                    let same : with_table.frames (s.page_directory j / 4096) l
                        ≡ s.frames (s.page_directory j / 4096) l =
                      with_table-frames (s.page_directory j / 4096) l (omega arith)
                      ∙ ground (arith, apart) in
                    ap (λ (d : ℕ). decode d (with_table.frames (d / 4096) l) other) e
                    ∙ ap (λ (x : ℕ). decode (s.page_directory j) x other) same
                | inr gone ↦
                    translate-missing other with_table (ap (λ (d : ℕ). d % 2 == 1) e ∙ gone)
                    ∙ sym (translate-missing other s gone)
              ]
        ]

    pub with_table-Ensured : Ensured i s with_table
    with_table-Ensured = record {
      valid = record {
        allocator = subst (λ (p : Pmm). Bounds.IsValid p) (sym with_table-pmm) allocator;
        tables_used = with_table-used;
        apart = with_table-apart;
      };
      has_table = ground (arith, with_table-directory i);
      kept = with_table-kept;
    }
