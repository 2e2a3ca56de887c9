-- ===== src/Flow/WhenAll.antt =====
-- `when_all` of flow/flow_async_aggregator.h: `flow_when_all_state` with its delegates, and
-- `flow_when_all_awaitable` with `launch`, `submit` and `cancel`, in the cancellable and in the fast
-- variant. Each call is cut at its accesses to shared memory. A branch's result is an error or a
-- value; which one, and whether the start of a runner throws, comes from outside.
pub mod Inv
pub mod System
pub mod Moves
pub mod Submits
pub mod Laws
mod Tests
pub mod Cancels
use flux_foundry.Prelude.{
  ℕ, zero, suc, ◌+◌, ◌%◌, Bool, true, false, ◌&&◌, ◌==◌, if◌then◌else◌, add64, sub64, ltb, update,
}

-- `detail::epoch`, the two flags, and `successfully_finished`
abbrev pub epoch : ℕ
epoch = 4

abbrev pub launch_success_msk : ℕ
launch_success_msk = 2

abbrev pub launch_failed_msk : ℕ
launch_failed_msk = 1

abbrev pub successfully_finished : ℕ
successfully_finished = epoch + launch_success_msk

-- `fired | launch_success_msk` and `fired | launch_failed_msk`
abbrev pub with_success : ℕ → ℕ
with_success fired = if ltb (fired % 4) 2 then fired + launch_success_msk else fired

abbrev pub with_failure : ℕ → ℕ
with_failure fired = if fired % 2 == 0 then fired + launch_failed_msk else fired

-- The cancellable awaitable and the fast one, which has no controllers.
pub data Kind : Type 0 where
  normal : Kind
  fast : Kind

-- `data` tells which branches hold an error, `controllers` which got a hard cancel.
pub record WhenAll : Type 0 where
  pub fired : ℕ
  pub failed : ℕ
  pub data_errors : ℕ → Bool
  pub controllers : ℕ → Bool

abbrev pub fresh : ℕ → WhenAll
fresh n = record { fired = 0; failed = n; data_errors = λ i. true; controllers = λ i. false }

-- What the awaitable is resumed with.
pub data Outcome : Type 0 where
  all_values : Outcome
  any_failed : (i : ℕ) → Outcome

-- Where branch `I` stands: not launched, in its runner, or before an access of `emplace`.
pub data Branch : Type 0 where
  unlaunched : Branch
  running : Branch
  emplacing : (bad : Bool) → Branch
  canceling : Branch
  noting : Branch
  counting : Branch
  last : Branch
  delivering : (o : Outcome) → Branch
  finished : Branch

abbrev pub cancel_upto : ℕ → (ℕ → Bool) → ℕ → Bool
cancel_upto k controllers i = if ltb i k then true else controllers i

abbrev pub outcome : ℕ → WhenAll → Outcome
outcome n s = if s.failed == n then all_values else any_failed s.failed

-- On an error the cancellable delegate cancels every branch before it notes the failure.
abbrev pub on_error : Kind → Branch
on_error normal = canceling
on_error fast = noting

-- One access of `delegate<I>::emplace`.
unfoldable pub emplace_step : Kind → ℕ → WhenAll → ℕ → Branch → WhenAll × Branch
emplace_step kind n s i (emplacing bad) =
    (record s { data_errors = update s.data_errors i bad }, if bad then on_error kind else counting)
emplace_step kind n s i canceling = (record s { controllers = cancel_upto n s.controllers }, noting)
emplace_step kind n s i noting = (if s.failed == n then record s { failed = i } else s, counting)
emplace_step kind n s i counting = (
  record s { fired = sub64 s.fired epoch },
  if s.fired == successfully_finished then last else finished,
)
emplace_step kind n s i last = (s, delivering (outcome n s))
emplace_step kind n s i (delivering o) = (s, finished)
emplace_step kind n s i pc = (s, pc)

-- The delegate of the fast variant.
abbrev pub fast_emplace_step : ℕ → WhenAll → ℕ → Branch → WhenAll × Branch
fast_emplace_step = emplace_step fast

-- Where the thread stands that calls `submit`. Between `launching k` and `launching (k + 1)` stands
-- `launch<k>`; its handler `on_error` is `dropping`, `withdrawing`, `marking`.
pub data Submitter : Type 0 where
  created : Submitter
  launching : (k : ℕ) → Submitter
  starting : (k : ℕ) → Submitter
  dropping : (k : ℕ) → Submitter
  withdrawing : Submitter
  marking : Submitter
  sealing : Submitter
  checking : Submitter
  resuming : (o : Outcome) → Submitter
  returned : (ok : Bool) → Submitter

-- `all_bps_present`
abbrev pub all_bps_present : ℕ → (ℕ → Bool) → Bool
all_bps_present zero packs = true
all_bps_present (suc n) packs = all_bps_present n packs && packs n

-- Only the cancellable awaitable cancels what it launched and marks the failure.
abbrev pub on_throw : Kind → ℕ → Submitter
on_throw normal k = dropping k
on_throw fast k = withdrawing

abbrev pub withdrawn : Kind → Submitter
withdrawn normal = marking
withdrawn fast = returned false

-- One access of `submit`; `throws` tells whether the runner of `launch<k>` fails to start. The test
-- of `failed` after a launch has no effect on the fold over the branches.
unfoldable pub submit_step :
    Kind → ℕ → (ℕ → Bool) → Bool → WhenAll → Submitter → WhenAll × Submitter
submit_step kind n packs throws s created =
    (s, if all_bps_present n packs then launching 0 else returned false)
submit_step kind n packs throws s (launching k) =
    if ltb k n then (record s { fired = add64 s.fired epoch }, starting k) else (s, sealing)
submit_step kind n packs throws s (starting k) =
    (s, if throws then on_throw kind k else launching (k + 1))
submit_step kind n packs throws s (dropping k) =
    (record s { controllers = cancel_upto k s.controllers }, withdrawing)
submit_step kind n packs throws s withdrawing =
    (record s { fired = sub64 s.fired epoch }, withdrawn kind)
submit_step kind n packs throws s marking =
    (record s { fired = with_failure s.fired }, returned false)
submit_step kind n packs throws s sealing =
    (record s { fired = with_success s.fired }, if s.fired == 0 then checking else returned true)
submit_step kind n packs throws s checking = (s, resuming (outcome n s))
submit_step kind n packs throws s (resuming o) = (s, returned true)
submit_step kind n packs throws s (returned ok) = (s, returned ok)

-- `launch` and `submit` of the fast variant.
abbrev pub fast_submit_step : ℕ → (ℕ → Bool) → Bool → WhenAll → Submitter → WhenAll × Submitter
fast_submit_step = submit_step fast

-- `cancel`, one access for its test and its loop.
unfoldable pub cancel : ℕ → WhenAll → WhenAll
cancel n s = if s.fired % 2 == 1 then s else record s { controllers = cancel_upto n s.controllers }
