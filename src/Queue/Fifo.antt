-- ===== src/Queue/Fifo.antt =====
-- The abstract queue that the queues of utility/concurrent_queues.h implement: a list, oldest
-- first, of at most `cap` objects.
use flux_foundry.Prelude.{
  ℕ, Bool, true, false, Option, none, some, List, [], ◌∷◌, ◌++◌, ltb, if◌then◌else◌, length,
}

module _ {A : Type 0} where
  abbrev pub put : ℕ → A → List A → List A × Bool
  put cap x xs = if ltb (length xs) cap then (xs ++ (x ∷ []), true) else (xs, false)

  abbrev pub take : List A → List A × Option A
  take [] = ([], none)
  take (x ∷ xs) = (xs, some x)
