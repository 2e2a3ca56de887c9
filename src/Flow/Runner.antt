-- ===== src/Flow/Runner.antt =====
-- `flow_runner` and `flow_fast_runner` of flow/flow_runner.h: one flow on its way through the nodes
-- of a blueprint. A step is what a thread does between two reads of the controller's word, so that
-- a cancellation may fall between the test for a hard and the test for a soft one; submission under
-- the controller's lock is one step, for a cancellation waits until the lock is free. The dispatchers
-- run what they are given; what becomes of an awaitable is a parameter.
pub mod Ends
pub mod Goes
pub mod Progress
pub mod Leads
pub mod Outcome
pub mod Delivers
pub mod Cancelled
mod Tests
use flux_foundry.Prelude.{
  ℕ, zero, suc, ◌+◌, ◌-◌, Bool, true, false, Option, none, some, List, [], ◌∷◌, ◌≡◌, if◌then◌else◌,
  length, update,
}
use flux_foundry.Flow.Controller.{CancelKind, soft_cancel, hard_cancel}
use flux_foundry.Flow.Blueprint.{Result, value, error, Dispatcher, Node, calc, via, async, end}
use flux_foundry.Flow.Blueprint.Fusion.{
  Place, caller, on, backend, Async, not_created, not_submitted, completes, Flow, pass,
}

-- A blueprint with what comes from outside: the error values that the user's types make, what
-- becomes of the awaitables, and which nodes have an awaitable that cannot be cancelled.
pub record Setting (V E : Type 0) : Type 0 where
  pub nodes : List (Node V E)
  pub submission_failed : E
  pub cancel_error : CancelKind → E
  pub outcomes : ℕ → Result V E → Async V E
  pub is_fast : ℕ → Bool

-- Where a flow is: before `ipc<i>::run`; past its test for a hard cancellation, with `i + 1` for
-- `I`; with an awaitable that is made, and one that is submitted, whose next step is `ipc<i>::run`;
-- with a task for that step in an executor's queue; with the result at the receiver.
pub data Pc (V E : Type 0) : Type 0 where
  ready : (i : ℕ) → (x : Result V E) → Pc V E
  checked : (i : ℕ) → (x : Result V E) → Pc V E
  created :
      (i : ℕ) → (d : Dispatcher) → (adaptor : Result V E → Result V E) → (a : Async V E) → Pc V E
  waiting :
      (i : ℕ) → (d : Dispatcher) → (adaptor : Result V E → Result V E) → (r : Result V E) → Pc V E
  posted : (executor i : ℕ) → (x : Result V E) → Pc V E
  delivered : (x : Result V E) → Pc V E

-- The runner and its controller; `operations` counts the awaitables that were asked for,
-- `submissions` the calls of `submit_async` at each node, `received` the calls of the receiver's `emplace`.
pub record Runner (V E : Type 0) : Type 0 where
  pub pc : Pc V E
  pub place : Place
  pub cancelled : Option CancelKind
  pub operations : ℕ
  pub submissions : ℕ → ℕ
  pub received : ℕ

abbrev pub is_force_canceled : Option CancelKind → Bool
is_force_canceled none = false
is_force_canceled (some soft_cancel) = false
is_force_canceled (some hard_cancel) = true

abbrev pub is_soft_canceled : Option CancelKind → Bool
is_soft_canceled none = false
is_soft_canceled (some soft_cancel) = true
is_soft_canceled (some hard_cancel) = false

module _ {V E : Type 0} where
  -- `get<I>(nodes_)`
  abbrev pub get_node : List (Node V E) → ℕ → Option (Node V E)
  get_node [] i = none
  get_node (b ∷ others) zero = some b
  get_node (b ∷ others) (suc i) = get_node others i

  -- `operator()`
  unfoldable pub start :
      Setting V E → (has_blueprint has_controller : Bool) → Result V E → Option (Runner V E)
  start w has_blueprint has_controller x =
      if has_blueprint
      then if has_controller
        then some (record {
          pc = ready (length w.nodes - 1) x;
          place = caller;
          cancelled = none;
          operations = 0;
          submissions = λ i. 0;
          received = 0;
        })
        else none
      else none

  -- `dispatch_impl`
  abbrev pub dispatch_impl : Dispatcher → ℕ → Result V E → Runner V E → Runner V E
  dispatch_impl d i x s =
      if d.is_inline then record s { pc = ready i x } else record s { pc = posted d.executor i x }

  -- `ipc<0>::run`
  abbrev pub emplace_end : Option (Node V E) → Result V E → Runner V E → Option (Runner V E)
  emplace_end none x s = none
  emplace_end (some (calc n f)) x s = none
  emplace_end (some (via d)) x s = none
  emplace_end (some (async d a)) x s = none
  emplace_end (some (end f)) x s =
      some (record s { pc = delivered (f x); received = s.received + 1 })

  abbrev pub run_end : Setting V E → Result V E → Runner V E → Option (Runner V E)
  run_end w x s = emplace_end (get_node w.nodes 0) x s

  -- `factory(in)`, and the dispatch of its error.
  abbrev pub create :
      Dispatcher → ℕ → (Result V E → Result V E) → Async V E → Runner V E → Runner V E
  create d i adaptor (not_created e) s =
      dispatch_impl d i (error e) (record s { operations = s.operations + 1 })
  create d i adaptor not_submitted s = record s {
    pc = created i d adaptor not_submitted;
    operations = s.operations + 1;
  }
  create d i adaptor (completes r) s = record s {
    pc = created i d adaptor (completes r);
    operations = s.operations + 1;
  }

  -- `dispatch` of node `i + 1`, by its tag and the type of `canceled`.
  abbrev pub dispatch :
      Setting V E
      → Option (Node V E)
      → ℕ
      → Result V E
      → (canceled : Bool) → Runner V E
      → Option (Runner V E)
  dispatch w none i x canceled s = none
  dispatch w (some (calc n f)) i x canceled s = some (record s { pc = ready i (f x) })
  dispatch w (some (via d)) i x canceled s = some (dispatch_impl d i x s)
  dispatch w (some (async d adaptor)) i x true s =
      some (dispatch_impl d i (error (w.cancel_error soft_cancel)) s)
  dispatch w (some (async d adaptor)) i x false s =
      some (create d i adaptor (w.outcomes s.operations x) s)
  dispatch w (some (end f)) i x canceled s = none

  -- The call of `submit_async` at node `i + 1`.
  abbrev pub count_call : ℕ → Runner V E → Runner V E
  count_call i s = record s {
    submissions = update s.submissions (i + 1) (s.submissions (i + 1) + 1);
  }

  -- `submit_async`, and the dispatch of its failure.
  abbrev pub submit :
      Setting V E
      → Dispatcher
      → ℕ
      → (Result V E → Result V E)
      → Async V E
      → Runner V E
      → Option (Runner V E)
  submit w d i adaptor (not_created e) s = none
  submit w d i adaptor not_submitted s =
      some (dispatch_impl d i (error w.submission_failed) (count_call i s))
  submit w d i adaptor (completes r) s =
      some (record (count_call i s) { pc = waiting i d adaptor r })

  -- `dispatch_async_node` from where the awaitable is made: a fast one is submitted, another one is
  -- released when `lock_and_set_cancel_handler` meets a cancellation.
  abbrev pub submit_or_release :
      Setting V E
      → Dispatcher
      → ℕ
      → (Result V E → Result V E)
      → Async V E
      → Option CancelKind
      → Runner V E
      → Option (Runner V E)
  submit_or_release w d i adaptor a none s = submit w d i adaptor a s
  submit_or_release w d i adaptor a (some kind) s =
      if w.is_fast (i + 1)
      then submit w d i adaptor a s
      else some (dispatch_impl d i (error (w.cancel_error kind)) s)

  -- What the thread that runs the flow does next.
  abbrev pub advance_at : Setting V E → Pc V E → Runner V E → Option (Runner V E)
  advance_at w (ready zero x) s = run_end w x s
  advance_at w (ready (suc i) x) s =
      if is_force_canceled s.cancelled
      then run_end w (error (w.cancel_error hard_cancel)) s
      else some (record s { pc = checked i x })
  advance_at w (checked i x) s =
      if is_soft_canceled s.cancelled
      then dispatch w (get_node w.nodes (suc i)) i (error (w.cancel_error soft_cancel)) true s
      else dispatch w (get_node w.nodes (suc i)) i x false s
  advance_at w (created i d adaptor a) s = submit_or_release w d i adaptor a s.cancelled s
  advance_at w (waiting i d adaptor r) s = none
  advance_at w (posted executor i x) s = none
  advance_at w (delivered x) s = none

  unfoldable pub advance : Setting V E → Runner V E → Option (Runner V E)
  advance w s = advance_at w s.pc s

  -- An executor runs the task that was posted to it.
  abbrev pub execute_at : Pc V E → Runner V E → Option (Runner V E)
  execute_at (ready i x) s = none
  execute_at (checked i x) s = none
  execute_at (created i d adaptor a) s = none
  execute_at (waiting i d adaptor r) s = none
  execute_at (posted executor i x) s = some (record s { pc = ready i x; place = on executor })
  execute_at (delivered x) s = none

  -- The function that `make_async_next_step` returns, called with the awaitable's result.
  abbrev pub resume_at : Pc V E → Result V E → Runner V E → Option (Runner V E)
  resume_at (ready i x) r s = none
  resume_at (checked i x) r s = none
  resume_at (created i d adaptor a) r s = none
  resume_at (waiting i d adaptor r') r s =
      some (dispatch_impl d i (adaptor r) (record s { place = backend }))
  resume_at (posted executor i x) r s = none
  resume_at (delivered x) r s = none

  -- The awaitable of a flow that is not cancelled completes with its result; a cancelled one with
  -- anything.
  abbrev pub Answers : Pc V E → Option CancelKind → Result V E → Type 0
  Answers (ready i x) c r = Unit {0}
  Answers (checked i x) c r = Unit {0}
  Answers (created i d adaptor a) c r = Unit {0}
  Answers (waiting i d adaptor r') none r = r' ≡ r
  Answers (waiting i d adaptor r') (some kind) r = Unit {0}
  Answers (posted executor i x) c r = Unit {0}
  Answers (delivered x) c r = Unit {0}

  -- The first `cancel` of the controller sets the kind, a later one returns.
  abbrev pub cancel_at : Option CancelKind → CancelKind → Runner V E → Option (Runner V E)
  cancel_at none kind s = some (record s { cancelled = some kind })
  cancel_at (some k) kind s = none

-- The steps of a flow: its own, an executor's, an awaitable's and a canceller's.
pub data Step {V E : Type 0} (w : Setting V E) : Runner V E → Runner V E → Type 0 where
  runs : {s t : Runner V E} → advance w s ≡ some t → Step w s t
  executes : {s t : Runner V E} → execute_at s.pc s ≡ some t → Step w s t
  resumes :
      {s t : Runner V E} (r : Result V E)
      → Answers s.pc s.cancelled r
      → resume_at s.pc r s ≡ some t
      → Step w s t
  cancels :
      {s t : Runner V E} (kind : CancelKind) → cancel_at s.cancelled kind s ≡ some t → Step w s t

-- `n` steps lead from one state to another.
pub data Steps {V E : Type 0} (w : Setting V E) : ℕ → Runner V E → Runner V E → Type 0 where
  stays : {s : Runner V E} → Steps w 0 s s
  moves : {s t u : Runner V E} {n : ℕ} → Step w s t → Steps w n t u → Steps w (suc n) s u

module _ {V E : Type 0} where
  -- `flow_fast_runner::ipc<I>::run`: no test for a cancellation, and no lock.
  abbrev pub fast_dispatch :
      Setting V E → Option (Node V E) → ℕ → Result V E → Runner V E → Option (Runner V E)
  fast_dispatch w none i x s = none
  fast_dispatch w (some (calc n f)) i x s = some (record s { pc = ready i (f x) })
  fast_dispatch w (some (via d)) i x s = some (dispatch_impl d i x s)
  fast_dispatch w (some (async d adaptor)) i x s =
      some (create d i adaptor (w.outcomes s.operations x) s)
  fast_dispatch w (some (end f)) i x s = none

  abbrev pub fast_advance_at : Setting V E → Pc V E → Runner V E → Option (Runner V E)
  fast_advance_at w (ready zero x) s = run_end w x s
  fast_advance_at w (ready (suc i) x) s = fast_dispatch w (get_node w.nodes (suc i)) i x s
  fast_advance_at w (checked i x) s = none
  fast_advance_at w (created i d adaptor a) s = submit w d i adaptor a s
  fast_advance_at w (waiting i d adaptor r) s = none
  fast_advance_at w (posted executor i x) s = none
  fast_advance_at w (delivered x) s = none

  unfoldable pub fast_advance : Setting V E → Runner V E → Option (Runner V E)
  fast_advance w s = fast_advance_at w s.pc s

pub data FastSteps {V E : Type 0} (w : Setting V E) : Runner V E → Runner V E → Type 0 where
  fast_stays : {s : Runner V E} → FastSteps w s s
  fast_runs : {s t u : Runner V E} → fast_advance w s ≡ some t → FastSteps w t u → FastSteps w s u
  fast_executes :
      {s t u : Runner V E} → execute_at s.pc s ≡ some t → FastSteps w t u → FastSteps w s u
  fast_resumes :
      {s t u : Runner V E} (r : Result V E)
      → Answers s.pc none r
      → resume_at s.pc r s ≡ some t
      → FastSteps w t u
      → FastSteps w s u
