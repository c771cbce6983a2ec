-- ===== src/Slab/Init.antt =====
-- slab_cache_init makes a cache without slabs.
use xenon_os.Base.{◌≤◌, ◌⊎◌, ℕ, ◌+◌, ◌^◌, ◌<◌, arith, ◌∙◌, [], ltb, if◌then◌else◌}
use xenon_os.Memory.Words.{load32-store32, load32-store32_apart}
use xenon_os.Pmm.Bounds
use xenon_os.Slab.{AddressSpace, slab_cache_init}
use xenon_os.Slab.Invariant.{IsCache}

-- slab_cache_init sets up a cache without slabs, of objects of the size asked for, or of 4 bytes if that is less.
pub slab_cache_init_lem :
    (cache size : ℕ) (s : AddressSpace)
    → size < 2 ^ 32
    → Bounds.IsValid s.paging.pmm
    → IsCache cache (if ltb size 4 then 4 else size) (slab_cache_init cache size s) []
unfolding slab_cache_init
slab_cache_init_lem cache size s lt v = (
  record {
    allocator = v;
    object_size =
        load32-store32_apart _ _ _ cache (omega arith) ∙ load32-store32 _ cache _ (ground arith);
    chain = load32-store32 _ (cache + 4) 0 (omega arith);
    places = tt;
    apart = tt;
    owned = tt;
  },
  tt,
)

-- A cache without slabs stays one while another cache is set up.
pub slab_cache_init-other :
    (cache size other size' : ℕ) (s : AddressSpace)
    → (cache + 8 ≤ other) ⊎ (other + 8 ≤ cache)
    → IsCache cache size s []
    → IsCache cache size (slab_cache_init other size' s) []
unfolding slab_cache_init
slab_cache_init-other cache size other size' s far c = (
  record {
    allocator = c.0.allocator;
    object_size =
        load32-store32_apart _ _ _ cache (omega (arith, far))
        ∙ load32-store32_apart _ _ _ cache (omega (arith, far))
        ∙ c.0.object_size;
    chain =
        load32-store32_apart _ _ _ (cache + 4) (omega (arith, far))
        ∙ load32-store32_apart _ _ _ (cache + 4) (omega (arith, far))
        ∙ c.0.chain;
    places = tt;
    apart = tt;
    owned = tt;
  },
  tt,
)
