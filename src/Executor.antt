-- ===== src/Executor.antt =====
-- `simple_executor` of executor/simple_executor.h: the control word with its flags and tickets, the
-- calls of `dispatch`, `run` and `try_shutdown`, each cut at its accesses to shared memory. The
-- queue is the abstract queue that the queues of utility/concurrent_queues.h implement. A failed
-- compare-exchange only repeats its load, so an exchange is one access with its load.
pub mod System
pub mod Laws
mod Tests
use flux_foundry.Prelude.{
  ℕ, ◌+◌, ◌-◌, ◌*◌, ◌/◌, ◌%◌, Bool, true, false, not, ◌&&◌, Option, none, some, List, ◌==◌,
  if◌then◌else◌, add64, sub64, length, ltb,
}
use flux_foundry.Queue.Fifo.{put, take}

abbrev pub running_flag : ℕ
running_flag = 1

abbrev pub shutdown_flag : ℕ
shutdown_flag = 2

abbrev pub pending_unit : ℕ
pending_unit = 4

abbrev pub is_running : ℕ → Bool
is_running ctrl = ctrl % 2 == 1

abbrev pub is_shutdown : ℕ → Bool
is_shutdown ctrl = ctrl / 2 % 2 == 1

abbrev pub pending_count : ℕ → ℕ
pending_count ctrl = ctrl / 4

-- `state | flag` and `state & ~running_flag`
abbrev pub with_running : ℕ → ℕ
with_running ctrl = if is_running ctrl then ctrl else ctrl + running_flag

abbrev pub with_shutdown : ℕ → ℕ
with_shutdown ctrl = if is_shutdown ctrl then ctrl else ctrl + shutdown_flag

abbrev pub without_running : ℕ → ℕ
without_running ctrl = if is_running ctrl then ctrl - running_flag else ctrl

-- The members; a task is a number.
pub record Executor : Type 0 where
  pub ctrl : ℕ
  pub q : List ℕ

abbrev pub fresh : Executor
fresh = record { ctrl = 0; q = List.[] }

-- The first loop of `dispatch`: buy a ticket, or abort (`none`) after a shutdown.
unfoldable pub buy_ticket : Executor → Option Executor
buy_ticket e =
    if is_shutdown e.ctrl then none else some (record e { ctrl = add64 e.ctrl pending_unit })

unfoldable pub return_ticket : Executor → Executor
return_ticket e = record e { ctrl = sub64 e.ctrl pending_unit }

-- A pass of the second loop of `dispatch`. `try_emplace` fails on a full queue, and at any time when
-- another producer is faster (`missed`). Then the consumer's own thread runs the task itself; another
-- thread repeats, or aborts once the executor is shut down and not running.
pub data Pass : Type 0 where
  enqueued : Executor → Pass
  ran_inline : Executor → Pass
  again : Pass
  aborted : Executor → Pass

unfoldable pub dispatch_pass :
    (capacity : ℕ) → (missed on_consumer : Bool) → Executor → (sbo : ℕ) → Pass
unfolding return_ticket
dispatch_pass capacity missed on_consumer e sbo =
    let (q', done) = if missed then (e.q, false) else put capacity sbo e.q in
    if done
    then enqueued (record e { q = q' })
    else if on_consumer
    then ran_inline (return_ticket e)
    else if is_shutdown e.ctrl && not (is_running e.ctrl)
    then aborted (return_ticket e)
    else again

-- The first loop of `run`: none where another `run` is active.
unfoldable pub enter : Executor → Option Executor
enter e = if is_running e.ctrl then none else some (record e { ctrl = with_running e.ctrl })

-- A pass of the second loop of `run` up to the task: pop one, or look whether to stop.
pub data Poll : Type 0 where
  execute : (task : ℕ) → Executor → Poll
  stop : Poll
  poll : Poll

unfoldable pub run_pass : Executor → Poll
run_pass e =
    let (q', p) = take e.q in
    elim p [
      | some task ↦ execute task (record e { q = q' })
      | none ↦ if is_shutdown e.ctrl && (pending_count e.ctrl == 0) then stop else poll
    ]

-- After the task: give its ticket back, and stop if it was the last one of a shutdown.
unfoldable pub finish_task : Executor → Executor × Bool
unfolding return_ticket
finish_task e = (return_ticket e, is_shutdown e.ctrl && (pending_count e.ctrl == 1))

unfoldable pub leave : Executor → Executor
leave e = record e { ctrl = without_running e.ctrl }

unfoldable pub try_shutdown : Executor → Executor × Bool
try_shutdown e =
    if is_shutdown e.ctrl then (e, true) else (record e { ctrl = with_shutdown e.ctrl }, true)
