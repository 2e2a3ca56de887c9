-- ===== src/Executor/Laws.antt =====
-- What the users of a `simple_executor` can rely on.
use flux_foundry.Prelude.{ℕ, ◌+◌, ◌^◌, ◌≤◌, ◌<◌, ◌≡◌, true, arith, length}
use flux_foundry.Executor.{
  is_running, is_shutdown, pending_count, buy_ticket, dispatch_pass, enter, run_pass, finish_task,
  leave, try_shutdown,
}
use flux_foundry.Executor.System.{
  System, Step, admit, hand_in, inline_run, give_up, begin_run, take_task, stop_idle, end_task,
  end_run, shut_down, Reach, Inv, Reach-Inv, split_length, count, active, holds_ticket,
}

-- No task runs twice or unasked: in every state reached in fewer than 2 ^ 60 steps a task ran, or was
-- given up, at most as often as it bought a ticket, and the count of pending tickets in the control
-- word is the number of the ticket holders, the queued tasks and the task being run.
pub tickets_match :
    {capacity n : ℕ} {s : System}
    → n < 2 ^ 60
    → Reach capacity n s
    → ((x : ℕ) → count x s.executed + count x s.lost ≤ count x s.admitted)
      × (pending_count s.exec.ctrl ≡ length s.bought + length s.exec.q + holds_ticket s.consumer)
      × (is_running s.exec.ctrl ≡ active s.consumer)
tickets_match small r =
    let inv = Reach-Inv small r in (λ x. omega (arith, inv.balance x), inv.tickets, inv.running)

module _ {capacity n : ℕ} {s : System} (inv : Inv n s) (small : n < 2 ^ 60) where
  step-closed :
      {t : System}
      → Step capacity s t
      → is_shutdown s.exec.ctrl ≡ true
      → (is_shutdown t.exec.ctrl ≡ true) × (t.admitted ≡ s.admitted)
  unfolding buy_ticket dispatch_pass enter run_pass finish_task leave try_shutdown
  step-closed (admit task b) d = ground (arith, inv.few)
  step-closed (hand_in missed task before rest split p) d = ground arith
  step-closed (inline_run missed task running before rest c split p) d =
      ground (arith, inv.few, inv.tickets, split_length s.bought task before rest split)
  step-closed (give_up missed task before rest split p) d =
      ground (arith, inv.few, inv.tickets, split_length s.bought task before rest split)
  step-closed (begin_run c e) d = ground (arith, inv.few)
  step-closed (take_task task c e) d = ground (arith, inv.few)
  step-closed (stop_idle c e) d = ground (arith, inv.few)
  step-closed (end_task task c) d = ground (arith, inv.few, inv.tickets)
  step-closed (end_run c) d = ground (arith, inv.few)
  step-closed shut_down d = ground (arith, inv.few)

-- After a shutdown nobody gets a ticket: every step from a shut-down state, reached in fewer than
-- 2 ^ 60 steps, leaves the executor shut down and the admitted tasks as they are.
pub shutdown_closes :
    {capacity n : ℕ} {s t : System}
    → n < 2 ^ 60
    → Reach capacity n s
    → Step capacity s t
    → is_shutdown s.exec.ctrl ≡ true
    → (is_shutdown t.exec.ctrl ≡ true) × (t.admitted ≡ s.admitted)
shutdown_closes {s = s} small r st d = step-closed (Reach-Inv small r) small st d
