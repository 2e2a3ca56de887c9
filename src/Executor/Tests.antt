-- ===== src/Executor/Tests.antt =====
-- A `simple_executor` with room for one task: task 5 is dispatched and run during a shutdown.
use flux_foundry.Prelude.{ℕ, ◌≡◌, ◌≤◌, ◌+◌, true, false, [], ◌∷◌, length, arith, refl}
use flux_foundry.Executor.{
  is_running, is_shutdown, pending_count, buy_ticket, dispatch_pass, enter, run_pass, try_shutdown,
}
use flux_foundry.Executor.System.{
  System, busy, leaving, admit, hand_in, begin_run, take_task, shut_down, Reach, initial, later,
  start, count, active, holds_ticket,
}
use flux_foundry.Executor.Laws.{tickets_match, shutdown_closes}

abbrev queued : System
queued = record start { exec = record { ctrl = 4; q = 5 ∷ [] }; admitted = 5 ∷ [] }

queued-Reach : Reach 1 2 queued
unfolding buy_ticket dispatch_pass
queued-Reach = later (later initial (admit 5 refl)) (hand_in false 5 [] [] refl refl)

abbrev closing : System
closing = record queued { exec = record { ctrl = 6; q = 5 ∷ [] } }

closing-Reach : Reach 1 3 closing
unfolding try_shutdown
closing-Reach = later queued-Reach shut_down

abbrev drained : System
drained = record closing {
  exec = record { ctrl = 3; q = [] };
  consumer = leaving;
  executed = 5 ∷ [];
}

abbrev in_task : System
in_task = record closing { exec = record { ctrl = 7; q = [] }; consumer = busy 5 }

in_task-Reach : Reach 1 5 in_task
unfolding enter run_pass
in_task-Reach = later (later closing-Reach (begin_run refl refl)) (take_task 5 refl refl)

tickets_match_example :
    ((x : ℕ) → count x in_task.executed + count x in_task.lost ≤ count x in_task.admitted)
    × (pending_count in_task.exec.ctrl
        ≡ length in_task.bought + length in_task.exec.q + holds_ticket in_task.consumer)
    × (is_running in_task.exec.ctrl ≡ active in_task.consumer)
tickets_match_example =
    tickets_match {capacity = 1} {n = 5} {s = in_task} (omega arith) in_task-Reach

shutdown_closes_example :
    (is_shutdown (try_shutdown closing.exec).0.ctrl ≡ true) × (closing.admitted ≡ closing.admitted)
shutdown_closes_example =
    shutdown_closes {capacity = 1} {n = 3} {s = closing} (omega arith) closing-Reach shut_down refl
