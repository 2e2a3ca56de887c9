-- ===== src/Pooling/Tests.antt =====
-- A user who takes a block, gives it back to the cache, and takes another.
use flux_foundry.Prelude.{◌≡◌, refl, none, [], arith}
use flux_foundry.Pool.{calc_line, init, fill, match_line, allocate, allocate_from}
use flux_foundry.Pool.Blocks.{occurrences}
use flux_foundry.Pooling.{default_cache_cap, alloc_size, alloc}
use flux_foundry.Pooling.Kept.{Shared, start, user_alloc}
use flux_foundry.Pooling.Fresh.{Users, opened, gets, alloc_unheld}

rounded : alloc_size 1000 16 ≡ 1008
rounded = refl

abbrev one_out : Shared
one_out = user_alloc 4096 (alloc_size 1000 16) 5000000 [] (start 4096)

far : calc_line 4096 5000000 ≡ none
unfolding calc_line
far = refl

one_out-Users : Users default_cache_cap 4096 (alloc_size 1000 16) one_out
one_out-Users = gets 5000000 far refl opened

unused : one_out.mallocs 5000000 ≡ 0
unfolding allocate match_line allocate_from init fill
unused = refl

alloc_unheld_example :
    occurrences (alloc (alloc_size 1000 16) 5000000 one_out.allocator).1 one_out.held ≡ 0
alloc_unheld_example =
    alloc_unheld default_cache_cap 4096 (alloc_size 1000 16) 5000000 one_out (omega arith)
      one_out-Users far unused
