-- ===== src/Pooling/Fresh.antt =====
-- No pointer is handed out twice.
use flux_foundry.Prelude.{
  ℕ, ◌+◌, ◌-◌, ◌<◌, ◌≡◌, ◌≢◌, refl, true, false, none, some, ◌∷◌, inl, inr, ◌==◌, ltb,
  if◌then◌else◌, Bool-cases, Option-cases, length, update, arith,
}
use flux_foundry.Pool.{calc_line, belong_to, deallocate}
use flux_foundry.Pool.Blocks.{occurrences}
use flux_foundry.Pool.Reuse.{remove, initial, deallocates, occurrences-remove}
use flux_foundry.Pooling.{Allocator, alloc, dealloc}
-- The allocator with its users: the pointers that they hold, the blocks that the pool has lent, and
-- how often each pointer of `malloc` is in use.
use flux_foundry.Pooling.Kept.{
  Shared, start, IsKept, calc_line_lt, fresh_at, user_alloc, alloc-IsKept,
}

-- `dealloc` by a user who holds the pointer.
abbrev pub returned : (cap buff p : ℕ) → Shared → Shared
returned cap buff p s =
    if ltb (length s.allocator.cache) cap
    then record s { allocator = dealloc cap buff p s.allocator; held = remove p s.held }
    else record s {
      allocator = dealloc cap buff p s.allocator;
      held = remove p s.held;
      out = elim (calc_line buff p) [ none ↦ s.out | some i ↦ update s.out i (remove p (s.out i)) ];
      mallocs = if belong_to buff p then s.mallocs else update s.mallocs p (s.mallocs p - 1);
    }

dealloc_cached :
    (cap buff p : ℕ) (s : Allocator)
    → p ≢ 0
    → ltb (length s.cache) cap ≡ true
    → dealloc cap buff p s ≡ record s { cache = p ∷ s.cache }
unfolding dealloc
dealloc_cached cap buff p s ne y = ground (arith, y)

belongs : (buff p i : ℕ) → calc_line buff p ≡ some i → belong_to buff p ≡ true
unfolding belong_to
belongs buff p i e = rw (belong_to, e) refl

belongs_not : (buff p : ℕ) → calc_line buff p ≡ none → belong_to buff p ≡ false
unfolding belong_to
belongs_not buff p e = rw (belong_to, e) refl

dealloc_rest :
    (cap buff p : ℕ) (s : Allocator)
    → p ≢ 0
    → ltb (length s.cache) cap ≡ false
    → dealloc cap buff p s ≡ (
        if belong_to buff p
        then record s { pool = deallocate buff p s.pool }
        else record s { freed = update s.freed p (s.freed p + 1) })
unfolding dealloc
dealloc_rest cap buff p s ne n = let z : (p == 0) ≡ false = ground arith in rw z (rw n refl)

dealloc-IsKept :
    (cap buff p : ℕ) (s : Shared)
    → 0 < buff
    → p ≢ 0
    → 0 < occurrences p s.held
    → IsKept buff s
    → IsKept buff (returned cap buff p s)
dealloc-IsKept cap buff p s pos ne o inv = elim (Bool-cases (ltb (length s.allocator.cache) cap)) [
  | inl y ↦ rw y (
      rw (dealloc_cached cap buff p s.allocator ne y) (record {
        reached = inv.reached;
        pooled = λ q i h k. ground (arith, inv.pooled q i h k, occurrences-remove p q s.held o);
        foreign = λ q k. ground (arith, inv.foreign q k, occurrences-remove p q s.held o);
        single = inv.single;
      }))
  | inr n ↦ rw n (
      rw (dealloc_rest cap buff p s.allocator ne n) (elim (Option-cases (calc_line buff p)) [
        | inl far ↦ rw (belongs_not buff p far) (
            rw far (record {
              reached = inv.reached;
              pooled = λ q i h k.
                  ground (arith, far, k, inv.pooled q i h k, occurrences-remove p q s.held o);
              foreign =
                  λ q k. ground (arith, far, k, inv.foreign q k, occurrences-remove p q s.held o);
              single = λ q. ground (arith, inv.single q);
            }))
        | inr (i, near) ↦
            let h : i < 4 = calc_line_lt buff p i near in
            let lent : 0 < occurrences p (s.out i) = ground (arith, inv.pooled p i h near, o) in
            rw (belongs buff p i near) (
              rw near (record {
                reached = deallocates i p h lent inv.reached;
                pooled = λ q j l k. ground (
                  arith,
                  near,
                  k,
                  inv.pooled q j l k,
                  occurrences-remove p q s.held o,
                  occurrences-remove p q (s.out i) lent,
                );
                foreign = λ q k.
                    ground (arith, near, k, inv.foreign q k, occurrences-remove p q s.held o);
                single = inv.single;
              }))
      ]))
]

pub data Users (cap buff sz : ℕ) : Shared → Type 0 where
  opened : Users cap buff sz (start buff)
  gets :
      {s : Shared} (m : ℕ)
      → calc_line buff m ≡ none
      → s.mallocs m ≡ 0
      → Users cap buff sz s
      → Users cap buff sz (user_alloc buff sz m s.allocator.cache s)
  puts :
      {s : Shared} (p : ℕ)
      → p ≢ 0
      → 0 < occurrences p s.held
      → Users cap buff sz s
      → Users cap buff sz (returned cap buff p s)

start-IsKept : (buff : ℕ) → IsKept buff (start buff)
start-IsKept buff = record {
  reached = initial;
  pooled = λ p i h k. refl;
  foreign = λ p k. refl;
  single = λ p. omega arith;
}

Users-IsKept : (cap buff sz : ℕ) (s : Shared) → 0 < buff → Users cap buff sz s → IsKept buff s
Users-IsKept cap buff sz s pos opened = start-IsKept buff
Users-IsKept cap buff sz s pos (gets {s = t} m far new u) =
    alloc-IsKept buff sz m t.allocator.cache t pos (Users-IsKept cap buff sz t pos u) far new refl
Users-IsKept cap buff sz s pos (puts {s = t} p ne o u) =
    dealloc-IsKept cap buff p t pos ne o (Users-IsKept cap buff sz t pos u)

-- What `alloc` returns, from the cache, the pool or `malloc`, is held by no user, if users give back
-- only what they hold and `malloc` returns memory that is not in use and not in the pool's buffer.
pub alloc_unheld :
    (cap buff sz m : ℕ) (s : Shared)
    → 0 < buff
    → Users cap buff sz s
    → calc_line buff m ≡ none
    → s.mallocs m ≡ 0
    → occurrences (alloc sz m s.allocator).1 s.held ≡ 0
unfolding alloc
alloc_unheld cap buff sz m s pos u far new =
    fresh_at buff sz m s.allocator.cache s pos (Users-IsKept cap buff sz s pos u) far new refl
