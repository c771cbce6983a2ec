-- ===== src/Paging.antt =====
-- src/memory/paging.c: the two levels of page tables. `frames` is the physical memory that holds the
-- tables, by frame number and index. The last directory entry names the directory itself, so the
-- processor finds the table of directory entry `i` at page_table_virtual(i): a table access is an
-- access to the frame that entry names.
pub mod Mmu
pub mod Table
pub mod Ensure
pub mod Map
pub mod Physical
pub mod Allocator
pub mod Release
pub mod Backed
pub mod Spending
pub mod Boot
mod Tests
use xenon_os.Base.{
  ℕ, zero, suc, ◌+◌, ◌-◌, ◌*◌, ◌/◌, ◌%◌, ◌^◌, Bool, true, false, not, List, [], ◌∷◌, ◌==◌, leb,
  if◌then◌else◌, bit_and, bit_or, update, add32,
}
use xenon_os.Pmm.{Pmm, pmm_alloc, no_frame, page_size}

abbrev pub page_table_entries : ℕ
page_table_entries = 1024

abbrev pub recursive_index : ℕ
recursive_index = 1023

abbrev pub recursive_tables_base : ℕ
recursive_tables_base = 0xFFC00000

-- The static variables, the frames of the tables, and the arguments of invlpg, the newest first.
pub record Paging : Type 0 where
  pub pmm : Pmm
  pub page_directory : ℕ → ℕ
  pub frames : ℕ → ℕ → ℕ
  pub flushed : List ℕ

abbrev pub flush_tlb_entry : ℕ → Paging → Paging
flush_tlb_entry address s = record s { flushed = address ∷ s.flushed }

pub page_table_virtual : ℕ → ℕ
page_table_virtual index = add32 recursive_tables_base (index * page_size)

-- `page_table_virtual(index)[i] = value`
pub store_entry : ℕ → ℕ → ℕ → Paging → Paging
store_entry index i value s =
    let frame = s.page_directory index / page_size in
    record s { frames = update s.frames frame (update (s.frames frame) i value) }

pub load_entry : ℕ → ℕ → Paging → ℕ
load_entry index i s = s.frames (s.page_directory index / page_size) i

-- `table[i] = 0`, by the rounds left.
pub clear_table : ℕ → ℕ → ℕ → Paging → Paging
clear_table zero i index s = s
clear_table (suc left) i index s = clear_table left (i + 1) index (store_entry index i 0 s)

pub directory_index : ℕ → ℕ
directory_index address = address / 2 ^ 22

pub table_index : ℕ → ℕ
table_index address = bit_and (address / 2 ^ 12) 0x03FF

pub is_present : ℕ → Paging → Bool
is_present index s = not (bit_and (s.page_directory index) 1 == 0)

-- The body of `if (!(page_directory[…] & 1))` in paging_map; false is its early return.
pub create_table : ℕ → Paging → Bool × Paging
create_table index s =
    let (table_frame, pmm') = pmm_alloc s.pmm in
    if table_frame == no_frame then (false, record s { pmm = pmm' }) else (
      true,
      clear_table page_table_entries 0 index (
          flush_tlb_entry (page_table_virtual index) (record s {
            pmm = pmm';
            page_directory =
                update s.page_directory index (bit_or (bit_and table_frame 0xFFFFF000) 3);
          })),
    )

pub ensure_table : ℕ → Paging → Bool × Paging
ensure_table index s = if is_present index s then (true, s) else create_table index s

pub paging_map : ℕ → ℕ → ℕ → Paging → Paging
paging_map virtual_address physical_address flags s =
    let index = directory_index virtual_address in
    if leb recursive_index index
    then s
    else let (ok, s') = ensure_table index s in
      if ok
      then flush_tlb_entry virtual_address (
          store_entry index (table_index virtual_address)
            (bit_or (bit_and physical_address 0xFFFFF000) (bit_and flags 0xFFF)) s')
      else s'

pub paging_unmap : ℕ → Paging → Paging
paging_unmap virtual_address s =
    let index = directory_index virtual_address in
    if leb recursive_index index
    then s
    else if not (is_present index s)
    then s
    else flush_tlb_entry virtual_address (store_entry index (table_index virtual_address) 0 s)

pub paging_get_physical : ℕ → Paging → ℕ
paging_get_physical virtual_address s =
    let index = directory_index virtual_address in
    if leb recursive_index index
    then 0
    else if not (is_present index s)
    then 0
    else bit_and (load_entry index (table_index virtual_address) s) 0xFFFFF000

-- The loop `page_directory[i] = 2`, by the rounds left.
pub clear_directory : ℕ → ℕ → Paging → Paging
clear_directory zero i s = s
clear_directory (suc left) i s =
    clear_directory left (i + 1) (record s { page_directory = update s.page_directory i 2 })

-- The loop `boot_page_table[i] = (i * PAGE_SIZE) | 3`; the array lies in the frame `boot`.
pub identity_map : ℕ → ℕ → ℕ → Paging → Paging
identity_map zero i boot s = s
identity_map (suc left) i boot s = identity_map left (i + 1) boot (record s {
  frames = update s.frames boot (update (s.frames boot) i (bit_or (i * page_size) 3));
})

-- The addresses of the two arrays, page-aligned, are arguments. Loading CR3 and CR0 is not part of
-- the state: translation counts as on after the call.
pub paging_initialize : ℕ → ℕ → Paging → Paging
paging_initialize directory boot_page_table s =
    let cleared = clear_directory 1024 0 s in
    let recursive = record cleared {
      page_directory = update cleared.page_directory recursive_index (bit_or directory 3);
    } in
    let mapped = identity_map page_table_entries 0 (boot_page_table / page_size) recursive in
    record mapped { page_directory = update mapped.page_directory 0 (bit_or boot_page_table 3) }
