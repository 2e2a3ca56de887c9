-- ===== src/Flow/Awaitable.antt =====
-- `awaitable_base` of flow/flow_awaitable.h: the status word, the reference count, the next step.
-- The derived class's `submit` and `cancel` are not under the source: what they do shows as the
-- code that `submit` returns and as the calls that other threads make.
pub mod Protocol
pub mod Laws
mod Tests
use flux_foundry.Prelude.{
  ℕ, ◌+◌, ◌-◌, Bool, true, false, Option, none, some, List, [], ◌∷◌, ◌++◌, ◌==◌, if◌then◌else◌,
  add64, sub64,
}

-- `enum wait_state`
pub data WaitState : Type 0 where
  idle : WaitState
  waiting : WaitState
  done : WaitState

-- The members, with what the object has done: the results that `next_step` was called with, the
-- calls of the derived `cancel`, and how often the object was deleted.
pub record Awaitable (R : Type 0) : Type 0 where
  pub status : WaitState
  pub refcount : ℕ
  pub delivered : List R
  pub cancels : ℕ
  pub deletes : ℕ

module _ {R : Type 0} where
  abbrev pub fresh : Awaitable R
  fresh = record { status = idle; refcount = 1; delivered = []; cancels = 0; deletes = 0 }

  unfoldable pub retain : Awaitable R → Awaitable R
  retain a = record a { refcount = add64 a.refcount 1 }

  unfoldable pub release : Awaitable R → Awaitable R
  release a =
      if a.refcount == 1
      then record a { refcount = sub64 a.refcount 1; deletes = a.deletes + 1 }
      else record a { refcount = sub64 a.refcount 1 }

-- `compare_exchange_strong` on the status; none where it fails.
abbrev pub exchange : WaitState → WaitState → WaitState → Option WaitState
exchange idle idle new = some new
exchange waiting waiting new = some new
exchange done done new = some new
exchange current expected new = none

-- `next_step` may throw, and is then called again with the exception.
module _ {R : Type 0} (throws : R → Bool) (exception : R) where
  unfoldable pub do_resume : Awaitable R → R → Awaitable R
  unfolding release
  do_resume a result =
      let calls = if throws result then result ∷ exception ∷ [] else result ∷ [] in
      release (record a { delivered = a.delivered ++ calls })

  unfoldable pub resume : Awaitable R → R → Awaitable R
  unfolding do_resume
  resume a io_result = elim (exchange a.status waiting done) [
    | none ↦ a
    | some new ↦ do_resume (record a { status = new }) io_result
  ]

  -- The static `cancel`: the loser returns, the winner resumes with the error of its kind.
  unfoldable pub cancel : Awaitable R → R → Awaitable R
  unfolding do_resume
  cancel a cancel_result = elim (exchange a.status waiting done) [
    | none ↦ a
    | some new ↦ do_resume (record a { status = new; cancels = a.cancels + 1 }) cancel_result
  ]

module _ {R : Type 0} where
  -- `submit_async` up to the call of `submit`; none stands for the return of -1.
  unfoldable pub submit_begin : Awaitable R → Option (Awaitable R)
  unfolding retain
  submit_begin a = elim (exchange a.status idle waiting) [
    | none ↦ none
    | some new ↦ some (retain (record a { status = new }))
  ]

  -- The rest of `submit_async`, with the code that `submit` returned.
  unfoldable pub submit_end : Awaitable R → ℕ → Awaitable R × ℕ
  unfolding release
  submit_end a code =
      if code == 0 then (release a, 0) else (release (record a { status = idle }), code)

  unfoldable pub provide_cancel_handler : Awaitable R → Awaitable R
  unfolding retain
  provide_cancel_handler a = retain a

  unfoldable pub notify_cancel_handler_dropped : Awaitable R → Awaitable R
  unfolding release
  notify_cancel_handler_dropped a = release a
