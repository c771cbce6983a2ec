-- ===== src/Multiboot/Tags.antt =====
-- multiboot_find_tag against the list of the tags that the boot loader wrote.
use xenon_os.Base.{
  ℕ, zero, suc, ◌+◌, ◌^◌, ◌≤◌, ◌<◌, ◌≡◌, ◌≢◌, some, List, [], ◌∷◌, arith, ◌==◌, if◌then◌else◌,
  length, add32,
}
use xenon_os.Multiboot.{
  Memory, read32, tag_type, tag_end, padded_size, find_tag_loop, multiboot_find_tag,
}

-- The addresses of the tags from `ptr` on, in order: the stream ends at the end tag, or at the
-- total size. Each tag has a padded size that is not zero, and lies below 4 GB.
pub data TagsAt (m : Memory) (end : ℕ) : ℕ → List ℕ → Type 0 where
  past_end : {ptr : ℕ} → end ≤ ptr → TagsAt m end ptr []
  end_tag : {ptr : ℕ} → tag_type m ptr ≡ tag_end → TagsAt m end ptr []
  present :
      {ptr next : ℕ} {rest : List ℕ}
      → ptr < end
      → tag_type m ptr ≢ tag_end
      → next ≡ ptr + padded_size m ptr
      → next < 2 ^ 32
      → TagsAt m end next rest
      → TagsAt m end ptr (ptr ∷ rest)

-- The first tag of a type, or NULL.
unfoldable pub first_of_type : Memory → ℕ → List ℕ → ℕ
first_of_type m type [] = 0
first_of_type m type (tag ∷ rest) =
    if tag_type m tag == type then tag else first_of_type m type rest

find_tag_loop_lem :
    (fuel : ℕ) (m : Memory) (type : ℕ) {end ptr : ℕ} {tags : List ℕ}
    → TagsAt m end ptr tags
    → length tags < fuel
    → find_tag_loop fuel m type end ptr ≡ some (first_of_type m type tags)
unfolding find_tag_loop first_of_type
find_tag_loop_lem zero m type t h = elim h [ ]
find_tag_loop_lem (suc fuel) m type (past_end e) h = ground arith
find_tag_loop_lem (suc fuel) m type (end_tag e) h = ground arith
find_tag_loop_lem (suc fuel) m type (present {ptr} {next} lt ne e below rest) h =
    let step : add32 ptr (padded_size m ptr) ≡ next = omega arith in
    ground (arith, step, find_tag_loop_lem fuel m type rest (omega arith))

-- On a well-formed tag stream multiboot_find_tag ends, if its fuel exceeds the number of tags, and
-- returns the first tag of the type in the stream, or NULL if there is none.
pub multiboot_find_tag-eq-first :
    (fuel : ℕ) (m : Memory) (address type : ℕ) {tags : List ℕ}
    → TagsAt m (add32 address (read32 m address)) (add32 address 8) tags
    → length tags < fuel
    → multiboot_find_tag fuel m address type ≡ some (first_of_type m type tags)
unfolding multiboot_find_tag
multiboot_find_tag-eq-first fuel m address type t h = find_tag_loop_lem fuel m type t h
