-- ===== src/Pool/Tests.antt =====
-- Two large blocks of a new pool.
use flux_foundry.Prelude.{ℕ, ◌+◌, ◌≤◌, ◌≡◌, ◌⊎◌, refl, Option, none, some, List, [], ◌∷◌, arith}
use flux_foundry.Pool.{
  Pool, match_line, block_size, calc_line, fill, init, allocate_from, allocate, deallocate,
}
use flux_foundry.Pool.Blocks.{occurrences}
use flux_foundry.Pool.Reuse.{lend, initial, allocates}
use flux_foundry.Pool.Memory.{deallocate-allocate, allocated_apart}

abbrev buff : ℕ
buff = 4096

lines : List (Option ℕ)
unfolding calc_line
lines =
    calc_line buff 0 ∷ calc_line buff 4096 ∷ calc_line buff 1052671 ∷ calc_line buff 1052672 ∷ []

lines_lem : lines ≡ none ∷ some 0 ∷ some 3 ∷ none ∷ []
unfolding lines
lines_lem = refl

too_large : (allocate 1025 (init buff)).1 ≡ 0
unfolding allocate match_line allocate_from
too_large = refl

abbrev first : Pool × ℕ
first = allocate 1000 (init buff)

abbrev lent : ℕ → List ℕ
lent = lend buff first.1 (λ i. [])

-- The last block of the buffer comes first.
first_lem : first.1 ≡ 1051648
unfolding allocate match_line allocate_from init fill
first_lem = refl

second_lem : (allocate 1000 first.0).1 ≡ 1050624
unfolding allocate match_line allocate_from init fill
second_lem = refl

lent_lem : occurrences 1051648 (lent 3) ≡ 1
unfolding allocate match_line allocate_from init fill calc_line
lent_lem = refl

deallocate-allocate_example :
    (deallocate buff (allocate 1000 first.0).1 (allocate 1000 first.0).0).free 3 ≡ first.0.free 3
deallocate-allocate_example =
    deallocate-allocate buff 1000 3 first.0 lent (ground arith) (allocates 1000 initial)
      (ground (arith, second_lem))

allocated_apart_example :
    ((allocate 1000 first.0).1 + 1000 ≤ 1051648)
    ⊎ (1051648 + block_size 3 ≤ (allocate 1000 first.0).1)
allocated_apart_example =
    allocated_apart buff 1000 3 1051648 first.0 lent (ground arith) (allocates 1000 initial)
      (ground (arith, second_lem)) (ground arith) (ground (arith, lent_lem))
