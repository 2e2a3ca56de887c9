-- ===== src/GsourceExecutor/Wakeup.antt =====
-- No wake-up is lost.
use flux_foundry.Prelude.{
  ℕ, zero, suc, ◌+◌, ◌<◌, ◌≡◌, ◌⊎◌, inl, inr, Bool, true, false, ltb, Bool-cases, arith,
}
use flux_foundry.GsourceExecutor.{
  max_task_per_round, Proc, idle, reads, runs, ends, Gsource, EventFile, proc_step, Pops, Step,
  begins, emplaces, wakes, calls, nests, unwinds, proceeds, Reach, initial, next,
}

-- The callback will look into the queue, or wake the loop up.
abbrev active : Proc → ℕ
active idle = 0
active reads = 1
active (runs c) = 1
active (ends true) = 0
active (ends false) = 1

abbrev IsAwaited : Proc → Gsource → Type 0
IsAwaited p s = (s.tasks ≡ 0) ⊎ (0 < s.emplacing + s.waking + s.event + active p)

proc_step-IsAwaited :
    (f : EventFile) (p : Proc) (popped : Bool) (s : Gsource)
    → ((e : ℕ) → 0 < f.write e)
    → Pops s popped
    → IsAwaited p s
    → IsAwaited
        (proc_step f p popped (record s { proc = p })).proc
        (proc_step f p popped (record s { proc = p }))
proc_step-IsAwaited f idle popped s h k w = w
proc_step-IsAwaited f reads popped s h k w = ground arith
proc_step-IsAwaited f (runs c) true s h k w = elim (Bool-cases (ltb c max_task_per_round)) [
  | inl y ↦ ground (arith, y)
  | inr n ↦ ground (arith, n)
]
proc_step-IsAwaited f (runs c) false s h k w = elim (Bool-cases (ltb c max_task_per_round)) [
  | inl y ↦ ground (arith, y, k)
  | inr n ↦ ground (arith, n)
]
proc_step-IsAwaited f (ends true) popped s h k w = w
proc_step-IsAwaited f (ends false) popped s h k w = ground (arith, h s.event)

step-IsAwaited :
    (f : EventFile) (s t : Gsource)
    → ((e : ℕ) → 0 < f.write e)
    → Step f s t
    → IsAwaited s.proc s
    → IsAwaited t.proc t
step-IsAwaited f s t h begins w = ground arith
step-IsAwaited f s t h (emplaces k) w = ground arith
step-IsAwaited f s t h (wakes k) w = ground (arith, h s.event)
step-IsAwaited f s t h (calls i k) w = ground arith
step-IsAwaited f s t h (nests c i k) w = ground arith
step-IsAwaited f s t h (unwinds c cs i k) w = ground arith
step-IsAwaited f s t h (proceeds popped k) w = proc_step-IsAwaited f s.proc popped s h k w

Reach-IsAwaited :
    (f : EventFile) (n : ℕ) (s : Gsource)
    → ((e : ℕ) → 0 < f.write e)
    → Reach f n s
    → IsAwaited s.proc s
Reach-IsAwaited f zero s h initial = ground arith
Reach-IsAwaited f (suc n) t h (next {s = s} r x) =
    step-IsAwaited f s t h x (Reach-IsAwaited f n s h r)

-- When no thread is in `dispatch`, no run of the callback is under way or only such as wait in a task
-- that runs the main loop again, and a task is in the queue, the event file is readable, so that the
-- main loop calls the callback; if a write leaves it readable.
pub no_lost_wakeup :
    (f : EventFile) (n : ℕ) (s : Gsource)
    → ((e : ℕ) → 0 < f.write e)
    → Reach f n s
    → s.emplacing ≡ 0
    → s.waking ≡ 0
    → s.proc ≡ idle
    → 0 < s.tasks
    → 0 < s.event
no_lost_wakeup f n s h r a b i k = ground (arith, Reach-IsAwaited f n s h r, i)
