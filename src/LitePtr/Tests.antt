-- ===== src/LitePtr/Tests.antt =====
-- Two `lite_ptr`s that come to share one block.
use flux_foundry.Prelude.{ℕ, ◌≡◌, ◌≢◌, ◌&&◌, ◌==◌, ltb, if◌then◌else◌, arith, refl}
use flux_foundry.LitePtr.{Heap, fresh, make, copy_assign}
use flux_foundry.LitePtr.Sharing.{
  makes, copy_assigns, Reach, initial, later, holders, counted_pointers,
}

abbrev one_made : Heap
one_made = make fresh 0

abbrev two_made : Heap
two_made = make one_made 1

abbrev assigned : Heap
assigned = copy_assign two_made 1 0

two_made-Reach : Reach 2 two_made
unfolding make
two_made-Reach = later (later initial (makes 0 (omega arith) refl)) (makes 1 (omega arith) refl)

assigned-Reach : Reach 2 assigned
assigned-Reach = later two_made-Reach (copy_assigns 1 0 (omega arith) (omega arith))

counted_pointers_example :
    (assigned.count 0 ≡ holders 2 assigned 0)
    × (assigned.destroyed 0 ≡ (if ltb 0 assigned.made && (holders 2 assigned 0 == 0) then 1 else 0))
counted_pointers_example = counted_pointers {n = 2} {s = assigned} (omega arith) assigned-Reach 0

zero_one : ◌≢◌ {A = ℕ} 1 0
zero_one e = omega (arith, e)
