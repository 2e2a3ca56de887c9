-- ===== src/GsourceExecutor.antt =====
-- `gsource_executor` of executor/gsource_executor.h: threads that dispatch tasks, and the callback
-- that the main loop runs when the event file is readable. The queue is counted, since Queue.Mpsc has
-- its order; the event file's counter is changed by a parameter. A task may run the main loop again
-- (the source can recurse), so the callback may run inside of itself.
pub mod Wakeup
mod Tests
use flux_foundry.Prelude.{
  ℕ, zero, suc, ◌+◌, ◌-◌, ◌<◌, ◌≡◌, ◌⊎◌, Bool, true, false, List, [], ◌∷◌, ltb, if◌then◌else◌,
}

abbrev pub max_task_per_round : ℕ
max_task_per_round = 10

-- `g_source_task_proc`: not running, before its read, in or after its `c`-th task, or before its last
-- test.
pub data Proc : Type 0 where
  idle : Proc
  reads : Proc
  runs : (c : ℕ) → Proc
  ends : (queue_became_empty : Bool) → Proc

-- The tasks in the queue, the threads in `wait_and_emplace`, those before `schedule_wake_up`, the
-- counter of the event file, the innermost run of the callback, and the task in which each of the
-- outer runs waits for it.
pub record Gsource : Type 0 where
  pub tasks : ℕ
  pub emplacing : ℕ
  pub waking : ℕ
  pub event : ℕ
  pub proc : Proc
  pub outer : List ℕ

-- What `write` and `read` make of the counter.
pub record EventFile : Type 0 where
  pub write : ℕ → ℕ
  pub read : ℕ → ℕ

abbrev pub start : Gsource
start = record { tasks = 0; emplacing = 0; waking = 0; event = 0; proc = idle; outer = [] }

abbrev pub schedule_wake_up : EventFile → Gsource → Gsource
schedule_wake_up f s = record s { event = f.write s.event }

-- `dispatch`: its call, the end of `wait_and_emplace`, and the wake-up.
abbrev pub dispatch_begin : Gsource → Gsource
dispatch_begin s = record s { emplacing = s.emplacing + 1 }

abbrev pub dispatch_emplaced : Gsource → Gsource
dispatch_emplaced s = record s {
  tasks = s.tasks + 1;
  emplacing = s.emplacing - 1;
  waking = s.waking + 1;
}

abbrev pub dispatch_end : EventFile → Gsource → Gsource
dispatch_end f s = schedule_wake_up f (record s { waking = s.waking - 1 })

-- The callback; `popped` tells what `try_pop` returns.
abbrev pub proc_step : EventFile → Proc → (popped : Bool) → Gsource → Gsource
proc_step f idle popped s = s
proc_step f reads popped s = record s { event = f.read s.event; proc = runs 0 }
proc_step f (runs c) popped s =
    if ltb c max_task_per_round
    then if popped
      then record s { tasks = s.tasks - 1; proc = runs (c + 1) }
      else record s { proc = ends true }
    else record s { proc = ends false }
proc_step f (ends queue_became_empty) popped s =
    if queue_became_empty
    then record s { proc = idle }
    else schedule_wake_up f (record s { proc = idle })

-- `try_pop` takes a task when there is one; it may find none only when there is none, or when a
-- thread is in `wait_and_emplace`, whose slot may be the first.
abbrev pub Pops : Gsource → Bool → Type 0
Pops s true = 0 < s.tasks
Pops s false = (s.tasks ≡ 0) ⊎ (0 < s.emplacing)

pub data Step (f : EventFile) (s : Gsource) : Gsource → Type 0 where
  begins : Step f s (dispatch_begin s)
  emplaces : 0 < s.emplacing → Step f s (dispatch_emplaced s)
  wakes : 0 < s.waking → Step f s (dispatch_end f s)
  calls : s.proc ≡ idle → 0 < s.event → Step f s (record s { proc = reads })
  -- A task, the `c + 1`-th of its run, runs the main loop, which calls the callback; the run goes on
  -- with the next task.
  nests :
      (c : ℕ)
      → s.proc ≡ runs (suc c)
      → 0 < s.event
      → Step f s (record s { proc = reads; outer = suc c ∷ s.outer })
  unwinds :
      (c : ℕ) (cs : List ℕ)
      → s.proc ≡ idle
      → s.outer ≡ c ∷ cs
      → Step f s (record s { proc = runs c; outer = cs })
  proceeds : (popped : Bool) → Pops s popped → Step f s (proc_step f s.proc popped s)

pub data Reach (f : EventFile) : ℕ → Gsource → Type 0 where
  initial : Reach f zero start
  next : {n : ℕ} {s t : Gsource} → Reach f n s → Step f s t → Reach f (suc n) t
