-- ===== src/Flow/Controller/Laws.antt =====
-- What a flow can rely on when it is cancelled from other threads.
use flux_foundry.Prelude.{ℕ, ◌+◌, ◌^◌, ◌≤◌, ◌<◌, ◌≡◌, true, Option, none, some, arith}
use flux_foundry.Flow.Controller.{
  Controller, cancel, is_canceled, register, resume, submit_failed, unlock,
}
use flux_foundry.Flow.Controller.Protocol.{
  Flow, Step, begin, guard_exit, completion, failure, cancellation, Reach, Reach-Inv,
}

-- The operations in flight: one at most.
abbrev pub in_flight_count : Option (ℕ × ℕ) → ℕ
in_flight_count none = 0
in_flight_count (some w) = 1

-- Every reference that an async node hands to the controller is given back exactly once: in every
-- state reached in fewer than 2 ^ 60 calls, an awaitable has been told of the drop of its handler as
-- often as it provided it, but for the one operation that may be in flight, and its cancel handler
-- has been called no more often than that.
pub handlers_balanced :
    {n : ℕ} {f : Flow}
    → n < 2 ^ 60
    → Reach n f
    → (p : ℕ)
    → (f.told p ≤ f.provided p)
      × (f.provided p ≤ f.told p + in_flight_count f.waiting)
      × (f.canceled p ≤ f.told p)
handlers_balanced small r p =
    let inv = Reach-Inv small r in ground (arith, inv.balanced p, inv.called p, inv.fits)

-- A cancellation is final: whatever call comes next, in a state reached in fewer than 2 ^ 60 calls,
-- the word with its cancel bits stays as it is, and no handler is registered.
pub canceled_stays :
    {n : ℕ} {f g : Flow}
    → n < 2 ^ 60
    → Reach n f
    → Step f g
    → is_canceled f.ctl ≡ true
    → (g.ctl.state ≡ f.ctl.state) × (g.ctl.handler ≡ none)
unfolding is_canceled register resume unlock submit_failed cancel
canceled_stays small r (begin param idle) c =
    let inv = Reach-Inv small r in ground (arith, inv.fits)
canceled_stays small r (guard_exit token b) c =
    let inv = Reach-Inv small r in ground (arith, inv.fits)
canceled_stays small r (completion param token w) c =
    let inv = Reach-Inv small r in ground (arith, inv.fits, inv.token_fits)
canceled_stays small r (failure param token w e b) c =
    let inv = Reach-Inv small r in ground (arith, inv.fits)
canceled_stays small r (cancellation force e) c =
    let inv = Reach-Inv small r in ground (arith, inv.fits)
