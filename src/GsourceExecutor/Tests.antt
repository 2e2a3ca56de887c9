-- ===== src/GsourceExecutor/Tests.antt =====
-- One task is dispatched to a loop whose event file counts.
use flux_foundry.Prelude.{◌+◌, ◌<◌, refl, arith}
use flux_foundry.GsourceExecutor.{
  Gsource, EventFile, start, dispatch_begin, dispatch_emplaced, dispatch_end, begins, emplaces,
  wakes, Reach, initial, next,
}
use flux_foundry.GsourceExecutor.Wakeup.{no_lost_wakeup}

abbrev counter : EventFile
counter = record { write = λ e. e + 1; read = λ e. 0 }

abbrev dispatched : Gsource
dispatched = dispatch_end counter (dispatch_emplaced (dispatch_begin start))

dispatched-reached : Reach counter 3 dispatched
dispatched-reached =
    next (next (next initial begins) (emplaces (omega arith))) (wakes (omega arith))

no_lost_wakeup_example : 0 < dispatched.event
no_lost_wakeup_example =
    no_lost_wakeup counter 3 dispatched (λ e. omega arith) dispatched-reached refl refl refl
      (omega arith)
