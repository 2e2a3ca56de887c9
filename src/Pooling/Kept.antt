-- ===== src/Pooling/Kept.antt =====
-- The accounts of the allocator, and what `alloc` does to them.
use flux_foundry.Prelude.{
  ℕ, ◌+◌, ◌-◌, ◌<◌, ◌≤◌, ◌≡◌, ◌≢◌, refl, ◌∙◌, sym, ap, ◌*◌, none, some, List, [], ◌∷◌, inl, inr,
  ◌==◌, if◌then◌else◌, Bool-cases, Option-cases, update, arith,
}
use flux_foundry.Pool.{
  match_line, calc_line, line_width, capacity, block_size, Pool, init, allocate,
}
use flux_foundry.Pool.Blocks.{occurrences, blocks_once, IsSound}
use flux_foundry.Pool.Reuse.{
  lend, Reach, allocates, Took, nothing, block, allocate-Took, match_line_le, Taken, taken_lem,
  lend_block, lend_null, positive_size, Reach-IsSound,
}
use flux_foundry.Pooling.{Allocator, alloc_from}

-- The allocator with its users: the pointers that they hold, the blocks that the pool has lent, and
-- how often each pointer of `malloc` is in use.

pub record Shared : Type 0 where
  pub allocator : Allocator
  pub held : List ℕ
  pub out : ℕ → List ℕ
  pub mallocs : ℕ → ℕ

abbrev pub start : ℕ → Shared
start buff = record {
  allocator = record { cache = []; pool = init buff; freed = λ p. 0 };
  held = [];
  out = λ i. [];
  mallocs = λ p. 0;
}

-- A pointer in use, in the cache or with a user.
abbrev pub uses : ℕ → Shared → ℕ
uses p s = occurrences p s.allocator.cache + occurrences p s.held

pub record IsKept (buff : ℕ) (s : Shared) : Type 0 where
  pub reached : Reach buff s.allocator.pool s.out
  pub pooled : (p i : ℕ) → i < 4 → calc_line buff p ≡ some i → uses p s ≡ occurrences p (s.out i)
  pub foreign : (p : ℕ) → calc_line buff p ≡ none → uses p s ≡ s.mallocs p
  pub single : (p : ℕ) → s.mallocs p ≤ 1

-- The pool lends a block that nobody has.
lent_line :
    (buff left line : ℕ) (s : Pool) (out : ℕ → List ℕ) (r : Pool × ℕ)
    → line + left ≤ 4
    → IsSound buff s out
    → Took s left line r
    → r.1 ≢ 0
    → (i : ℕ) × ((i < 4) × ((calc_line buff r.1 ≡ some i) × (occurrences r.1 (out i) ≡ 0)))
lent_line buff left line s out r w inv (nothing h) ne = absurd (ne refl)
lent_line buff left line s out r w inv (block i p rest a b e) ne =
    let t : Taken buff s out i p = taken_lem buff i p rest s out inv (omega arith) e in
    (i, (omega arith, (t.known, t.not_lent)))

pub calc_line_lt : (buff p i : ℕ) → calc_line buff p ≡ some i → i < 4
unfolding calc_line
calc_line_lt buff p i e = ground (arith, e)

uses_once : (buff p : ℕ) (s : Shared) → 0 < buff → IsKept buff s → uses p s ≤ 1
uses_once buff p s pos inv = elim (Option-cases (calc_line buff p)) [
  | inl n ↦ ground (arith, inv.foreign p n, inv.single p)
  | inr (i, e) ↦
      let h : i < 4 = calc_line_lt buff p i e in
      let sound : IsSound buff s.allocator.pool s.out =
        Reach-IsSound buff s.allocator.pool s.out pos inv.reached in
      ground (
        arith,
        inv.pooled p i h e,
        sound.whole i p h,
        blocks_once (capacity i) (block_size i) (buff + i * line_width) p (positive_size i h),
      )
]

lent_pool :
    (buff sz : ℕ) (s : Shared)
    → 0 < buff
    → IsKept buff s
    → (allocate sz s.allocator.pool).1 ≢ 0
    → (i : ℕ) × ((i < 4)
        × ((calc_line buff (allocate sz s.allocator.pool).1 ≡ some i)
            × (occurrences (allocate sz s.allocator.pool).1 (s.out i) ≡ 0)))
lent_pool buff sz s pos inv ne =
    lent_line buff (4 - match_line sz) (match_line sz) s.allocator.pool s.out
      (allocate sz s.allocator.pool) (ground (arith, match_line_le sz))
      (Reach-IsSound buff s.allocator.pool s.out pos inv.reached)
      (allocate-Took sz s.allocator.pool) ne

pub fresh_at :
    (buff sz m : ℕ) (cache : List ℕ) (s : Shared)
    → 0 < buff
    → IsKept buff s
    → calc_line buff m ≡ none
    → s.mallocs m ≡ 0
    → cache ≡ s.allocator.cache
    → occurrences (alloc_from sz m cache s.allocator).1 s.held ≡ 0
fresh_at buff sz m [] s pos inv far new e =
    elim (Bool-cases ((allocate sz s.allocator.pool).1 == 0)) [
      | inl y ↦ rw y (ground (arith, inv.foreign m far, new))
      | inr n ↦
          let (i, (h, (k, z))) = lent_pool buff sz s pos inv (ground (arith, n)) in
          rw n (ground (arith, inv.pooled (allocate sz s.allocator.pool).1 i h k, z))
    ]
fresh_at buff sz m (x ∷ xs) s pos inv far new e = ground (arith, uses_once buff x s pos inv, first)
  where
    first : 0 < occurrences x s.allocator.cache
    first = rw (sym e) (ground arith)

-- The steps of the users: `malloc` returns memory that is not in use and not in the pool's buffer;
-- only pointers that are held are given back.
abbrev pub out_after : ℕ → List ℕ → ℕ → (ℕ → List ℕ) → ℕ → List ℕ
out_after buff [] p out = lend buff p out
out_after buff (x ∷ xs) p out = out

abbrev pub mallocs_after : List ℕ → ℕ → ℕ → (ℕ → ℕ) → ℕ → ℕ
mallocs_after [] p m mallocs = if p == 0 then update mallocs m (mallocs m + 1) else mallocs
mallocs_after (x ∷ xs) p m mallocs = mallocs

abbrev pub user_alloc : (buff sz m : ℕ) → List ℕ → Shared → Shared
user_alloc buff sz m cache s = record {
  allocator = (alloc_from sz m cache s.allocator).0;
  held = (alloc_from sz m cache s.allocator).1 ∷ s.held;
  out = out_after buff cache (allocate sz s.allocator.pool).1 s.out;
  mallocs = mallocs_after cache (allocate sz s.allocator.pool).1 m s.mallocs;
}

malloc-IsKept :
    (buff m : ℕ) (out' : ℕ → List ℕ) (s : Shared)
    → IsKept buff s
    → calc_line buff m ≡ none
    → s.mallocs m ≡ 0
    → out' ≡ s.out
    → IsKept buff (record {
      allocator = s.allocator;
      held = m ∷ s.held;
      out = out';
      mallocs = update s.mallocs m (s.mallocs m + 1);
    })
malloc-IsKept buff m out' s inv far new same = rw same (record {
  reached = inv.reached;
  pooled = λ p i h k. ground (arith, far, k, inv.pooled p i h k);
  foreign = λ p k. ground (arith, inv.foreign p k);
  single = λ p. ground (arith, new, inv.single p);
})

pool-IsKept :
    (buff p i : ℕ) (pool : Pool) (out' : ℕ → List ℕ) (s : Shared)
    → IsKept buff s
    → calc_line buff p ≡ some i
    → Reach buff pool out'
    → out' ≡ update s.out i (p ∷ s.out i)
    → IsKept buff (record {
      allocator = record s.allocator { pool = pool };
      held = p ∷ s.held;
      out = out';
      mallocs = s.mallocs;
    })
pool-IsKept buff p i pool out' s inv near r same = record {
  reached = r;
  pooled = λ q j h k. rw same (ground (arith, near, k, inv.pooled q j h k));
  foreign = λ q k. ground (arith, near, k, inv.foreign q k);
  single = inv.single;
}

pub alloc-IsKept :
    (buff sz m : ℕ) (cache : List ℕ) (s : Shared)
    → 0 < buff
    → IsKept buff s
    → calc_line buff m ≡ none
    → s.mallocs m ≡ 0
    → cache ≡ s.allocator.cache
    → IsKept buff (user_alloc buff sz m cache s)
alloc-IsKept buff sz m [] s pos inv far new e =
    elim (Bool-cases ((allocate sz s.allocator.pool).1 == 0)) [
      | inl y ↦ rw y (
          malloc-IsKept buff m (lend buff (allocate sz s.allocator.pool).1 s.out) s inv far new
            (ap (λ x. lend buff x s.out) (ground (arith, y)) ∙ lend_null buff s.out pos))
      | inr n ↦
          let (i, (h, (k, z))) = lent_pool buff sz s pos inv (ground (arith, n)) in
          rw n (
            pool-IsKept buff (allocate sz s.allocator.pool).1 i (allocate sz s.allocator.pool).0
              (lend buff (allocate sz s.allocator.pool).1 s.out) s inv k (allocates sz inv.reached)
              (lend_block buff i (allocate sz s.allocator.pool).1 s.out k))
    ]
alloc-IsKept buff sz m (x ∷ xs) s pos inv far new e = record {
  reached = inv.reached;
  pooled = λ p i h k. ground (arith, e, inv.pooled p i h k, ap (occurrences p) e);
  foreign = λ p k. ground (arith, e, inv.foreign p k, ap (occurrences p) e);
  single = inv.single;
}
