-- ===== src/Pooling.antt =====
-- `flux_foundry_allocator` of memory/pooling.h for sizes that the pool serves: the cache of one thread
-- in front of the memory pool. What `malloc` returns comes from outside.
pub mod Kept
pub mod Fresh
mod Tests
use flux_foundry.Prelude.{
  ℕ, zero, suc, ◌+◌, ◌-◌, ◌*◌, ◌/◌, ◌<◌, ◌≡◌, Bool, true, false, List, [], ◌∷◌, ◌==◌, ltb,
  if◌then◌else◌, length, update,
}
use flux_foundry.Pool.{Pool, belong_to, allocate, deallocate}

-- `cache_cap`
abbrev pub default_cache_cap : ℕ
default_cache_cap = 512

-- `(size + align - 1) & ~(align - 1)`, for the power of two `align`.
abbrev pub alloc_size : ℕ → ℕ → ℕ
alloc_size size align = (size + align - 1) / align * align

-- The thread's cache, its top first, and the pool; `freed` counts the calls of `free`.
pub record Allocator : Type 0 where
  pub cache : List ℕ
  pub pool : Pool
  pub freed : ℕ → ℕ

-- `alloc`; `m` is what `malloc` returns, if it is called.
abbrev pub alloc_fresh : (m : ℕ) → Pool × ℕ → Allocator → Allocator × ℕ
alloc_fresh m (pool, p) s = if p == 0 then (s, m) else (record s { pool = pool }, p)

-- The cache holds no null pointer, since `dealloc` returns before it.
abbrev pub alloc_from : (sz m : ℕ) → List ℕ → Allocator → Allocator × ℕ
alloc_from sz m [] s = alloc_fresh m (allocate sz s.pool) s
alloc_from sz m (p ∷ ps) s = (record s { cache = ps }, p)

unfoldable pub alloc : (sz m : ℕ) → Allocator → Allocator × ℕ
alloc sz m s = alloc_from sz m s.cache s

-- `dealloc`
unfoldable pub dealloc : (cap buff p : ℕ) → Allocator → Allocator
dealloc cap buff p s =
    if p == 0
    then s
    else if ltb (length s.cache) cap
    then record s { cache = p ∷ s.cache }
    else if belong_to buff p
    then record s { pool = deallocate buff p s.pool }
    else record s { freed = update s.freed p (s.freed p + 1) }
