-- ===== src/Flow/Runner/Tests.antt =====
-- Flows on a small blueprint: a calc node, a `via` to executor 7, an awaitable and the end.
use flux_foundry.Prelude.{
  ℕ, ◌+◌, ◌≡◌, ◌≤◌, ◌*◌, refl, ◌⊎◌, true, false, Option, none, some, update, List, [], ◌∷◌, length,
  arith,
}
use flux_foundry.Flow.Controller.{CancelKind, soft_cancel, hard_cancel}
use flux_foundry.Flow.Blueprint.{
  Result, value, error, Dispatcher, Node, calc, via, async, end, make_blueprint, append, append_all,
}
use flux_foundry.Flow.Blueprint.Fusion.{Place, caller, on, backend, completes, eval_written}
use flux_foundry.Flow.Blueprint.Shape.{IsShaped, append_all-IsShaped}
use flux_foundry.Flow.Runner.{
  Setting, Pc, ready, delivered, Runner, start, advance, fast_advance, runs, executes, resumes,
  Steps, stays, moves, FastSteps, fast_stays, fast_runs, fast_executes, fast_resumes,
}
use flux_foundry.Flow.Runner.Progress.{IsOver, IsLive, runs_to_end}
use flux_foundry.Flow.Runner.Leads.{flow_of}
use flux_foundry.Flow.Runner.Delivers.{fast_runs_alike, delivers_as_written}
use flux_foundry.Flow.Runner.Cancelled.{none_submitted}

abbrev increment : Result ℕ ℕ → Result ℕ ℕ
increment (value v) = value (v + 1)
increment (error e) = error e

abbrev same : Result ℕ ℕ → Result ℕ ℕ
same r = r

abbrev inline_dispatcher : Dispatcher
inline_dispatcher = record { executor = 0; is_inline = true }

abbrev executor_7 : Dispatcher
executor_7 = record { executor = 7; is_inline = false }

abbrev written : List (Node ℕ ℕ)
written = calc 1 increment ∷ via executor_7 ∷ async inline_dispatcher increment ∷ end same ∷ []

abbrev stored : List (Node ℕ ℕ)
stored = end same ∷ async inline_dispatcher increment ∷ via executor_7 ∷ calc 2 increment ∷ []

abbrev kind_code : CancelKind → ℕ
kind_code soft_cancel = 98
kind_code hard_cancel = 99

abbrev setting : Setting ℕ ℕ
setting = record {
  nodes = stored;
  submission_failed = 97;
  cancel_error = kind_code;
  outcomes = λ k r. completes r;
  is_fast = λ i. false;
}

abbrev at : Pc ℕ ℕ → Place → Option CancelKind → ℕ → (ℕ → ℕ) → ℕ → Runner ℕ ℕ
at p place c k submitted got = record {
  pc = p;
  place = place;
  cancelled = c;
  operations = k;
  submissions = submitted;
  received = got;
}

abbrev never : ℕ → ℕ
never i = 0

-- One call of `submit_async`, at node 1.
abbrev once : ℕ → ℕ
once = update never 1 1

abbrev started : Runner ℕ ℕ
started = at (ready 3 (value 5)) caller none 0 never 0

abbrev arrived : Runner ℕ ℕ
arrived = at (delivered (value 7)) backend none 1 once 1

start_lem : start setting true true (value 5) ≡ some started
unfolding start
start_lem = refl

no_controller : start setting true false (value 5) ≡ none
unfolding start
no_controller = refl

build_lem : append_all make_blueprint written ≡ some stored
unfolding append_all append
build_lem = refl

shape : IsShaped stored
shape =
    append_all-IsShaped make_blueprint written stored
      ((ground arith, ground arith), (tt, (tt, (tt, tt)))) ((ground arith, ground arith), (tt, tt))
      build_lem

-- The whole way.
way : Steps setting 10 started arrived
unfolding advance
way = moves (runs refl) (
    moves (runs refl) (
      moves (runs refl) (
        moves (runs refl) (
          moves (executes refl) (
            moves (runs refl) (
              moves (runs refl) (
                moves (runs refl)
                  (moves (resumes (value 6) refl refl) (moves (runs refl) stays)))))))))

fast_way : FastSteps setting started arrived
unfolding fast_advance
fast_way = fast_runs refl (
    fast_runs refl (
      fast_executes refl (
        fast_runs refl
          (fast_runs refl (fast_resumes (value 6) refl refl (fast_runs refl fast_stays))))))

-- A flow that is cancelled on its way through the `via`, after its first node.
abbrev stopped : CancelKind → Runner ℕ ℕ
stopped k = at (ready 2 (value 6)) caller (some k) 0 never 0

hard_way :
    Steps setting 1
      (stopped hard_cancel)
      (at (delivered (error 99)) caller (some hard_cancel) 0 never 1)
unfolding advance
hard_way = moves (runs refl) stays

soft_way :
    Steps setting 6
      (stopped soft_cancel)
      (at (delivered (error 98)) (on 7) (some soft_cancel) 0 never 1)
unfolding advance
soft_way = moves (runs refl) (
    moves (runs refl)
      (moves (executes refl) (moves (runs refl) (moves (runs refl) (moves (runs refl) stays)))))

runs_to_end_example :
    (10 ≤ 5 * length stored)
    × ((IsOver arrived.pc × (arrived.received ≡ 1))
        ⊎ ((arrived.received ≡ 0) × IsLive setting arrived.pc arrived))
runs_to_end_example =
    runs_to_end setting true true (value 5) started arrived 10 (tt, shape) start_lem way

fast_runs_alike_example :
    (◌≡◌ {A = Result ℕ ℕ} (value 7) (value 7))
    × ((arrived.place ≡ arrived.place) × (arrived.operations ≡ arrived.operations))
fast_runs_alike_example =
    fast_runs_alike setting true true (value 5) (value 7) (value 7) started arrived arrived 10
      (ground arith) start_lem way refl refl fast_way refl

delivers_as_written_example :
    flow_of (value 7) backend 1
    ≡ eval_written 97 (λ k r. completes r) written (flow_of (value 5) caller 0)
delivers_as_written_example =
    delivers_as_written setting written true true (value 5) (value 7) started arrived 10 build_lem
      (tt, (refl, (tt, (tt, tt)))) (ground arith) start_lem way refl refl

none_submitted_example :
    (◌≡◌ {A = ℕ} 0 0) × (◌≡◌ {A = Option CancelKind} (some soft_cancel) (some soft_cancel))
none_submitted_example =
    none_submitted 1 setting (stopped soft_cancel)
      (at (delivered (error 98)) (on 7) (some soft_cancel) 0 never 1) soft_cancel 6 refl refl
      soft_way
