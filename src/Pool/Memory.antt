-- ===== src/Pool/Memory.antt =====
-- The memory that `static_mem_pool` hands out.
use flux_foundry.Prelude.{
  ℕ, ◌+◌, ◌-◌, ◌*◌, ◌<◌, ◌≤◌, ◌≡◌, ◌≢◌, ◌⊎◌, refl, List, ◌∷◌, inl, inr, ◌==◌, Bool-cases, update,
  arith,
}
use flux_foundry.Pool.{match_line, block_size, line_width, capacity, Pool, allocate, deallocate}
use flux_foundry.Pool.Lines.{match_line_fits}
use flux_foundry.Pool.Blocks.{occurrences, blocks_apart, IsSound}
use flux_foundry.Pool.Reuse.{
  Reach, Took, nothing, block, allocate-Took, match_line_le, line_bounds, Taken, taken_lem,
  given_back, block-IsSound, Reach-IsSound,
}

Took-back :
    (buff left line j : ℕ) (s : Pool) (out : ℕ → List ℕ) (r : Pool × ℕ)
    → 0 < buff
    → line + left ≤ 4
    → IsSound buff s out
    → Took s left line r
    → r.1 ≢ 0
    → (deallocate buff r.1 r.0).free j ≡ s.free j
Took-back buff left line j s out r pos w inv (nothing h) ne = absurd (ne refl)
Took-back buff left line j s out r pos w inv (block i p rest a b e) ne =
    rw
      (given_back buff i p (record s { free = update s.free i rest }) (update out i (p ∷ out i)) pos
        (block-IsSound buff i p rest s out inv (ground arith) e) (ground arith) (ground arith))
      (ground (arith, e))

-- What `allocate` gives, `deallocate` puts back: the pool is as it was, whatever was allocated and
-- given back before, if the pool had a block.
pub deallocate-allocate :
    (buff n j : ℕ) (s : Pool) (out : ℕ → List ℕ)
    → 0 < buff
    → Reach buff s out
    → (allocate n s).1 ≢ 0
    → (deallocate buff (allocate n s).1 (allocate n s).0).free j ≡ s.free j
deallocate-allocate buff n j s out pos r ne =
    Took-back buff (4 - match_line n) (match_line n) j s out (allocate n s) pos
      (ground (arith, match_line_le n)) (Reach-IsSound buff s out pos r) (allocate-Took n s) ne

-- A new block and one that is handed out.
block_apart :
    (buff i j p q : ℕ) (rest : List ℕ) (s : Pool) (out : ℕ → List ℕ)
    → IsSound buff s out
    → i < 4
    → j < 4
    → s.free i ≡ p ∷ rest
    → 0 < occurrences q (out j)
    → (p + block_size i ≤ q) ⊎ (q + block_size j ≤ p)
block_apart buff i j p q rest s out inv h l e o = elim (Bool-cases (i == j)) [
  | inl y ↦ ground (
    arith,
    y,
    inv.whole j q l,
    o,
    new.not_lent,
    new.standing,
    blocks_apart (capacity i) (block_size i) (buff + i * line_width) p q,
  )
  | inr m ↦ ground (arith, m, inv.whole j q l, o, new.lower, new.upper, line_bounds buff j q l)
]
  where
    new : Taken buff s out i p
    new = taken_lem buff i p rest s out inv h e

Took-apart :
    (buff n left line j q : ℕ) (s : Pool) (out : ℕ → List ℕ) (r : Pool × ℕ)
    → line + left ≤ 4
    → match_line n ≤ line
    → IsSound buff s out
    → Took s left line r
    → r.1 ≢ 0
    → j < 4
    → 0 < occurrences q (out j)
    → (r.1 + n ≤ q) ⊎ (q + block_size j ≤ r.1)
Took-apart buff n left line j q s out r w m inv (nothing h) ne l o = absurd (ne refl)
Took-apart buff n left line j q s out r w m inv (block i p rest a b e) ne l o = ground (
  arith,
  block_apart buff i j p q rest s out inv (ground arith) l e o,
  match_line_fits n i (ground arith) (ground arith),
)

-- The `n` bytes that `allocate` gives overlap no block that is handed out.
pub allocated_apart :
    (buff n j q : ℕ) (s : Pool) (out : ℕ → List ℕ)
    → 0 < buff
    → Reach buff s out
    → (allocate n s).1 ≢ 0
    → j < 4
    → 0 < occurrences q (out j)
    → ((allocate n s).1 + n ≤ q) ⊎ (q + block_size j ≤ (allocate n s).1)
allocated_apart buff n j q s out pos r ne l o =
    Took-apart buff n (4 - match_line n) (match_line n) j q s out (allocate n s)
      (ground (arith, match_line_le n)) (ground arith) (Reach-IsSound buff s out pos r)
      (allocate-Took n s) ne l o
