-- ===== src/Flow/Controller/Tests.antt =====
-- A flow whose first operation registers and is cancelled.
use flux_foundry.Prelude.{◌≡◌, ◌≤◌, ◌+◌, true, none, [], ◌∷◌, arith, refl}
use flux_foundry.Flow.Controller.{
  cancel_called, dropped, hard_cancel, Controller, register, unlock, cancel, is_canceled,
}
use flux_foundry.Flow.Controller.Protocol.{
  Flow, begin, guard_exit, cancellation, Reach, initial, later, start, after, register_flow,
}
use flux_foundry.Flow.Controller.Laws.{handlers_balanced, canceled_stays, in_flight_count}

abbrev registered_once : Flow
registered_once = register_flow start 5 (register start.ctl 5)

abbrev unlocked : Flow
unlocked = record registered_once { ctl = unlock registered_once.ctl registered_once.ctl.state }

unlocked-Reach : Reach 2 unlocked
unfolding register
unlocked-Reach = later (later initial (begin 5 refl)) (guard_exit registered_once.ctl.state refl)

abbrev locked_word : Controller
locked_word = registered_once.ctl

handlers_balanced_example :
    (unlocked.told 5 ≤ unlocked.provided 5)
    × (unlocked.provided 5 ≤ unlocked.told 5 + in_flight_count unlocked.waiting)
    × (unlocked.canceled 5 ≤ unlocked.told 5)
handlers_balanced_example = handlers_balanced {n = 2} {f = unlocked} (omega arith) unlocked-Reach 5

abbrev canceled_flow : Flow
canceled_flow =
    after unlocked unlocked.waiting
      (record { state = 5; handler = none }, cancel_called 5 hard_cancel ∷ dropped 5 ∷ [])

canceled-Reach : Reach 3 canceled_flow
unfolding cancel register unlock
canceled-Reach = later unlocked-Reach (cancellation true refl)

canceled_stays_example :
    ((unlock canceled_flow.ctl 3).state ≡ canceled_flow.ctl.state)
    × ((unlock canceled_flow.ctl 3).handler ≡ none)
unfolding is_canceled
canceled_stays_example =
    canceled_stays {n = 3} {f = canceled_flow} (omega arith) canceled-Reach (guard_exit 3 refl) refl
