-- ===== src/Flow/Blueprint/Tests.antt =====
-- What `operator|` builds from a few nodes.
use flux_foundry.Prelude.{ℕ, ◌+◌, ◌≡◌, refl, true, false, none, some, List, [], ◌∷◌, arith}
use flux_foundry.Flow.Blueprint.{
  Result, value, error, returns, throws, Dispatcher, Node, calc, via, async, end, then_call,
  catch_exception, make_blueprint, append, append_all,
}
use flux_foundry.Flow.Blueprint.Shape.{IsShaped, append_all-IsShaped}

abbrev same : Result ℕ ℕ → Result ℕ ℕ
same r = r

abbrev executor_3 : Dispatcher
executor_3 = record { executor = 3; is_inline = false }

abbrev inline_dispatcher : Dispatcher
inline_dispatcher = record { executor = 0; is_inline = true }

abbrev three_calcs : List (Node ℕ ℕ)
three_calcs = calc 1 same ∷ calc 1 same ∷ via executor_3 ∷ end same ∷ []

abbrev built : List (Node ℕ ℕ)
built = end same ∷ via executor_3 ∷ calc 1 same ∷ calc 2 same ∷ []

build_lem : append_all make_blueprint three_calcs ≡ some built
unfolding append_all append
build_lem = refl

-- A `via` after an awaitable, and a node after the end, are deleted.
via_on_async : append (async executor_3 same ∷ []) (via executor_3) ≡ none
unfolding append
via_on_async = refl

calc_on_end : append (end same ∷ []) (calc 1 same) ≡ none
unfolding append
calc_on_end = refl

-- An inline `via` replaces the one before it, and with it the hop to executor 3.
lost_hop :
    append {V = ℕ} {E = ℕ} (via executor_3 ∷ []) (via inline_dispatcher)
    ≡ some (via inline_dispatcher ∷ [])
unfolding append
lost_hop = refl

thrown : then_call {V = ℕ} {E = ℕ} (λ r. throws 4) (value 1) ≡ error 4
unfolding then_call
thrown = refl

caught :
    catch_exception {V = ℕ} {E = ℕ} (λ e. true) (λ e. returns (value (e + 1))) (error 4) ≡ value 5
unfolding catch_exception
caught = refl

append_all-IsShaped_example : IsShaped built
append_all-IsShaped_example =
    append_all-IsShaped make_blueprint three_calcs built
      ((ground arith, ground arith), ((ground arith, ground arith), (tt, (tt, tt))))
      ((ground arith, ground arith), (tt, tt)) build_lem
