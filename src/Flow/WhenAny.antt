-- ===== src/Flow/WhenAny.antt =====
-- `when_any` of flow/flow_async_aggregator.h: `flow_when_any_state` with its delegates, and
-- `flow_when_any_awaitable` with `launch`, `submit` and `cancel`, in the cancellable and in the fast
-- variant, cut and parametrised as `when_all` is.
pub mod System
pub mod Inv
pub mod Moves
pub mod Counts
pub mod Race
pub mod Submits
pub mod Laws
mod Tests
use flux_foundry.Prelude.{
  ℕ, ◌+◌, ◌-◌, ◌^◌, ◌%◌, Bool, true, false, ◌&&◌, not, ◌==◌, if◌then◌else◌, add64, sub64, ltb,
  update,
}
use flux_foundry.Flow.WhenAll.{
  Kind, normal, fast, epoch, successfully_finished, with_success, with_failure, cancel_upto,
}

pub record WhenAny : Type 0 where
  pub fired : ℕ
  pub winner : ℕ
  pub data_errors : ℕ → Bool
  pub controllers : ℕ → Bool

-- The fast state starts with the winner -1, which its `submit` overwrites.
abbrev pub first_winner : Kind → ℕ → ℕ
first_winner normal n = n
first_winner fast n = 2 ^ 64 - 1

abbrev pub fresh : Kind → ℕ → WhenAny
fresh kind n = record {
  fired = 0;
  winner = first_winner kind n;
  data_errors = λ i. true;
  controllers = λ i. false;
}

pub data Outcome : Type 0 where
  value_from : (i : ℕ) → Outcome
  all_failed : Outcome

-- Where branch `I` stands: not launched, in its runner, or before an access of `emplace`.
pub data Branch : Type 0 where
  unlaunched : Branch
  running : Branch
  emplacing : (bad : Bool) → Branch
  racing : Branch
  winning : Branch
  canceling : Branch
  counting : (i_won : Bool) → Branch
  last : Branch
  delivering : Branch
  finished : Branch

-- Only the cancellable delegate cancels the others after its win.
abbrev pub after_win : Kind → Branch
after_win normal = canceling
after_win fast = counting true

-- One access of `delegate<I>::emplace`; `resume` is called in `winning` and in `delivering`.
unfoldable pub emplace_step : Kind → ℕ → WhenAny → ℕ → Branch → WhenAny × Branch
emplace_step kind n s i (emplacing bad) =
    (record s { data_errors = update s.data_errors i bad }, if bad then counting false else racing)
emplace_step kind n s i racing = (
  if s.winner == n then record s { winner = i } else s,
  if s.winner == n then winning else counting false,
)
emplace_step kind n s i winning = (s, after_win kind)
emplace_step kind n s i canceling =
    (record s { controllers = cancel_upto n s.controllers }, counting true)
emplace_step kind n s i (counting i_won) = (
  record s { fired = sub64 s.fired epoch },
  if (s.fired == successfully_finished) && not i_won then last else finished,
)
emplace_step kind n s i last = (s, if s.winner == n then delivering else finished)
emplace_step kind n s i delivering = (s, finished)
emplace_step kind n s i pc = (s, pc)

-- The delegate of the fast variant.
abbrev pub fast_emplace_step : ℕ → WhenAny → ℕ → Branch → WhenAny × Branch
fast_emplace_step = emplace_step fast

-- Where the thread stands that calls `submit`; `count` is its number of launched branches.
pub data Submitter : Type 0 where
  created : Submitter
  launching : (k count : ℕ) → Submitter
  starting : (k count : ℕ) → Submitter
  withdrawing : (k count : ℕ) → Submitter
  judging : (k count : ℕ) → Submitter
  closing : Submitter
  sealing : Submitter
  checking : Submitter
  resuming : Submitter
  returned : (ok : Bool) → Submitter

abbrev pub begin : Kind → ℕ → WhenAny → WhenAny
begin normal n s = s
begin fast n s = record s { winner = n }

-- The end of the fold over the branches.
abbrev pub conclude : ℕ → Submitter
conclude count = if count == 0 then closing else sealing

-- One access of `submit`; `throws` tells whether the runner of `launch<k>` fails to start.
unfoldable pub submit_step :
    Kind → ℕ → (ℕ → Bool) → Bool → WhenAny → Submitter → WhenAny × Submitter
submit_step kind n packs throws s created = (begin kind n s, launching 0 0)
submit_step kind n packs throws s (launching k count) =
    if ltb k n
    then if packs k
      then (record s { fired = add64 s.fired epoch }, starting k count)
      else (s, judging k count)
    else (s, conclude count)
submit_step kind n packs throws s (starting k count) =
    (s, if throws then withdrawing k count else judging k (count + 1))
submit_step kind n packs throws s (withdrawing k count) =
    (record s { fired = sub64 s.fired epoch }, judging k count)
submit_step kind n packs throws s (judging k count) =
    (s, if s.winner == n then launching (k + 1) count else conclude count)
submit_step kind n packs throws s closing =
    (record s { fired = with_failure s.fired }, returned false)
submit_step kind n packs throws s sealing =
    (record s { fired = with_success s.fired }, if s.fired == 0 then checking else returned true)
submit_step kind n packs throws s checking = (s, if s.winner == n then resuming else returned true)
submit_step kind n packs throws s resuming = (s, returned true)
submit_step kind n packs throws s (returned ok) = (s, returned ok)

-- `launch` and `submit` of the fast variant.
abbrev pub fast_submit_step : ℕ → (ℕ → Bool) → Bool → WhenAny → Submitter → WhenAny × Submitter
fast_submit_step = submit_step fast

-- `cancel`, one access for its test and its loop.
unfoldable pub cancel : ℕ → WhenAny → WhenAny
cancel n s = if s.fired % 2 == 1 then s else record s { controllers = cancel_upto n s.controllers }
