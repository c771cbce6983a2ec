-- ===== src/Paging/Mmu.antt =====
-- What the processor makes of the tables, and what one store to a table does to it.
use xenon_os.Base.{
  ℕ, ◌+◌, ◌*◌, ◌/◌, ◌%◌, ◌^◌, ◌<◌, ◌≡◌, ◌≢◌, refl, Bool, true, false, ◌&&◌, ◌==◌, ltb,
  if◌then◌else◌, Option, some, none, arith, ap, ◌∙◌, Bool-cases, inl, inr,
}
use xenon_os.Base.Bits.{bit_and_mask}
use xenon_os.Pmm.Frames.{used}
use xenon_os.Paging.{Paging, store_entry, table_index, is_present}
use xenon_os.Pmm.Bounds

-- The entry of the second level for an address.
unfoldable pub entry_of : Paging → ℕ → ℕ
entry_of s address = s.frames (s.page_directory (address / 2 ^ 22) / 4096) (address / 2 ^ 12 % 1024)

-- An entry of the second level, as the translation through it.
abbrev pub through : ℕ → ℕ → Option ℕ
through entry address = if entry % 2 == 1 then some (entry / 4096 * 4096 + address % 4096) else none

abbrev pub decode : ℕ → ℕ → ℕ → Option ℕ
decode directory_entry entry address =
    if directory_entry % 2 == 1 then through entry address else none

-- The translation of an address: both entries present, the page of the second, and the offset.
unfoldable pub translate : Paging → ℕ → Option ℕ
translate s address = decode (s.page_directory (address / 2 ^ 22)) (entry_of s address) address

-- Below the window of the tables.
abbrev pub is_user : ℕ → Bool
is_user address = ltb (address / 2 ^ 22) 1023

abbrev pub HasTable : ℕ → Paging → Type 0
HasTable i s = s.page_directory i % 2 ≡ 1

-- Every table has a frame of its own, which is in use.
pub record IsValid (s : Paging) : Type 0 where
  pub allocator : Bounds.IsValid s.pmm
  pub tables_used : (i : ℕ) → i < 1023 → HasTable i s → used s.pmm (s.page_directory i / 4096) ≡ 1
  pub apart :
      (i j : ℕ)
      → i < 1023
      → j < 1023
      → HasTable i s
      → HasTable j s
      → s.page_directory i / 4096 ≡ s.page_directory j / 4096
      → i ≡ j

pub table_index-mod : (address : ℕ) → table_index address ≡ address / 2 ^ 12 % 1024
unfolding table_index
table_index-mod address = bit_and_mask 10 (address / 2 ^ 12)

pub is_present-mod : (i : ℕ) (s : Paging) → is_present i s ≡ (s.page_directory i % 2 == 1)
unfolding is_present
is_present-mod i s = ground (arith, bit_and_mask 1 (s.page_directory i))

pub stored :
    (i k value j l : ℕ) (s : Paging)
    → (store_entry i k value s).frames (s.page_directory j / 4096) l ≡ (
        if s.page_directory j / 4096 == s.page_directory i / 4096 && l == k
        then value
        else s.frames (s.page_directory j / 4096) l)
unfolding store_entry
stored i k value j l s = ground arith

decode-if :
    (test : Bool) (directory_entry v e address : ℕ)
    → (directory_entry % 2 == 1) ≡ true
    → decode directory_entry (if test then v else e) address
      ≡ (if test then through v address else decode directory_entry e address)
decode-if true d v e address p = rw p refl
decode-if false d v e address p = refl

same_slot :
    (address other : ℕ) (s : Paging)
    → IsValid s
    → address / 2 ^ 22 < 1023
    → other / 2 ^ 22 < 1023
    → HasTable (address / 2 ^ 22) s
    → HasTable (other / 2 ^ 22) s
    → (s.page_directory (other / 2 ^ 22) / 4096 == s.page_directory (address / 2 ^ 22) / 4096
        && other / 2 ^ 12 % 1024 == address / 2 ^ 12 % 1024)
      ≡ (other / 4096 == address / 4096)
same_slot address other s v a b p q =
    let i : ℕ = address / 2 ^ 22 in
    let j : ℕ = other / 2 ^ 22 in
    elim (Bool-cases (s.page_directory j / 4096 == s.page_directory i / 4096)) [
      | inl same ↦ let e : i ≡ j = v.apart i j a b p q (ground arith) in ground (arith, same, e)
      | inr distinct ↦
          let ne : i ≢ j =
            λ e. absurd (ground (arith, distinct, ap (λ (x : ℕ). s.page_directory x / 4096) e)) in
          ground (arith, distinct, ne)
    ]

-- A store to the entry of an address changes the translation of its page, and of no other.
pub translate-store_entry :
    (address value other : ℕ) (s : Paging)
    → IsValid s
    → address / 2 ^ 22 < 1023
    → other / 2 ^ 22 < 1023
    → HasTable (address / 2 ^ 22) s
    → translate (store_entry (address / 2 ^ 22) (address / 2 ^ 12 % 1024) value s) other
      ≡ (if other / 4096 == address / 4096 then through value other else translate s other)
unfolding translate entry_of store_entry
translate-store_entry address value other s v a b present =
    let i : ℕ = address / 2 ^ 22 in
    let j : ℕ = other / 2 ^ 22 in
    let k : ℕ = address / 2 ^ 12 % 1024 in
    let l : ℕ = other / 2 ^ 12 % 1024 in
    elim (Bool-cases (s.page_directory j % 2 == 1)) [
      | inl there ↦
          let slot = same_slot address other s v a b present (ground arith) in
          ap (λ (e : ℕ). decode (s.page_directory j) e other) (stored i k value j l s)
          ∙ ap
              (λ (c : Bool).
                decode (s.page_directory j)
                  (if c then value else s.frames (s.page_directory j / 4096) l) other)
              slot
          ∙ decode-if (other / 4096 == address / 4096) (s.page_directory j) value
              (s.frames (s.page_directory j / 4096) l) other there
      | inr missing ↦
          let ne : i ≢ j = λ e.
            absurd (ground (arith, missing, present, ap (λ (x : ℕ). s.page_directory x % 2) e)) in
          let elsewhere : (other / 4096 == address / 4096) ≡ false = ground (arith, ne) in
          rw (missing, elsewhere) refl
    ]

pub store_entry-IsValid :
    (i k value : ℕ) (s : Paging) → IsValid s → IsValid (store_entry i k value s)
unfolding store_entry
store_entry-IsValid i k value s v = record {
  allocator = v.allocator;
  tables_used = v.tables_used;
  apart = v.apart;
}
