-- ===== src/StaticStack/Tests.antt =====
-- A `static_stack` of four nodes.
use flux_foundry.Prelude.{ℕ, ◌≡◌, true, some, [], ◌∷◌, arith}
use flux_foundry.StaticStack.{Stack, init, push, pop}
use flux_foundry.StaticStack.Rep.{Sized}
use flux_foundry.StaticStack.Laws.{Holds, push_refines, pop_refines}
use flux_foundry.StaticStack.Init.{init-Holds, power_of_two-Sized}

abbrev empty_stack : Stack ℕ
empty_stack = init 4

four-Sized : Sized 4
four-Sized = power_of_two-Sized 2 (omega arith)

power_of_two-Sized_example : Sized 4
power_of_two-Sized_example = power_of_two-Sized 2 (omega arith)

push_refines_example : ((push 4 empty_stack 7).1 ≡ true) × Holds 4 (push 4 empty_stack 7).0 (7 ∷ [])
push_refines_example =
    push_refines {capacity = 4} empty_stack [] 7 four-Sized (init-Holds {A = ℕ} 4 four-Sized)

pop_refines_example :
    ((pop 4 (push 4 empty_stack 7).0).1 ≡ some 7) × Holds 4 (pop 4 (push 4 empty_stack 7).0).0 []
pop_refines_example =
    pop_refines {capacity = 4} (push 4 empty_stack 7).0 (7 ∷ []) four-Sized push_refines_example.1
