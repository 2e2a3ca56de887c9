-- ===== src/Flow/Controller.antt =====
-- `flow_controller` of flow/flow_runner.h and what an async node of `flow_runner` does with it.
-- The word `state_` holds the cancel bits in its two low bits and an epoch above them; one call is
-- one step here, and a pass of a loop that would spin is `none`.
pub mod Protocol
pub mod Laws
mod Tests
use flux_foundry.Prelude.{
  ℕ, ◌+◌, ◌-◌, ◌%◌, Bool, true, false, ◌||◌, Option, none, some, List, [], ◌∷◌, ◌++◌, ◌==◌,
  if◌then◌else◌, add64,
}

-- `enum runner_cancel`
abbrev pub hard : ℕ
hard = 1

abbrev pub soft : ℕ
soft = 2

abbrev pub locked : ℕ
locked = 3

abbrev pub epoch : ℕ
epoch = 4

-- `exp & runner_cancel::msk`, and `exp & ~size_t(runner_cancel::msk)`
abbrev pub bits : ℕ → ℕ
bits exp = exp % 4

abbrev pub without_bits : ℕ → ℕ
without_bits exp = exp - exp % 4

-- `enum class cancel_kind`
pub data CancelKind : Type 0 where
  soft_cancel : CancelKind
  hard_cancel : CancelKind

-- The members of `flow_controller`. The three handler members are set together: `some p` stands for
-- an awaitable's handlers with parameter `p`, `none` for the stubs and the null parameter.
pub record Controller : Type 0 where
  pub state : ℕ
  pub handler : Option ℕ

-- What a call does to the awaitables: their cancel handler, their notification of the drop.
pub data Effect : Type 0 where
  cancel_called : (param : ℕ) → CancelKind → Effect
  dropped : (param : ℕ) → Effect

abbrev pub fresh : Controller
fresh = record { state = 0; handler = none }

-- The calls through the two function pointers; the stubs do nothing.
abbrev pub call_cancel : Option ℕ → CancelKind → List Effect
call_cancel none kind = []
call_cancel (some p) kind = cancel_called p kind ∷ []

abbrev pub call_dropped : Option ℕ → List Effect
call_dropped none = []
call_dropped (some p) = dropped p ∷ []

abbrev pub is_canceled_word : ℕ → Bool
is_canceled_word exp = bits exp == soft || bits exp == hard

unfoldable pub is_force_canceled : Controller → Bool
is_force_canceled c = bits c.state == hard

unfoldable pub is_soft_canceled : Controller → Bool
is_soft_canceled c = bits c.state == soft

unfoldable pub is_canceled : Controller → Bool
is_canceled c = is_canceled_word c.state

-- The word returned is the token when its bits are `locked`; with other bits nothing was set.
unfoldable pub lock_and_set_cancel_handler : Controller → ℕ → Controller × ℕ
lock_and_set_cancel_handler c param =
    if bits c.state == 0
    then (record { state = add64 c.state locked; handler = some param }, add64 c.state locked)
    else (c, c.state)

unfoldable pub reset_cancel_handler_when_locked : Controller → Controller × List Effect
reset_cancel_handler_when_locked c = (record c { handler = none }, call_dropped c.handler)

-- The compare-exchange of the token by the next word.
unfoldable pub unlock : Controller → ℕ → Controller
unlock c token = if c.state == token then record c { state = add64 token 1 } else c

unfoldable pub reset_cancel_handler : Controller → Controller × List Effect
reset_cancel_handler c =
    if bits c.state == 0
    then (record { state = add64 c.state epoch; handler = none }, call_dropped c.handler)
    else (c, [])

abbrev pub cancel_bits : Bool → ℕ
cancel_bits force = if force then hard else soft

abbrev pub cancel_kind : Bool → CancelKind
cancel_kind force = if force then hard_cancel else soft_cancel

-- `cancel(force)`; `none` while another thread holds the lock and the loop goes round.
unfoldable pub cancel : Controller → Bool → Option (Controller × List Effect)
cancel c force =
    if is_canceled_word c.state
    then some (c, [])
    else if c.state == without_bits c.state
    then some (
      record { state = add64 (without_bits c.state) (cancel_bits force); handler = none },
      call_cancel c.handler (cancel_kind force) ++ call_dropped c.handler,
    )
    else none

-- The resumption of an async node that was registered under `token`: take the lock over from the
-- guard if it still holds it, drop the handler, and unlock.
unfoldable pub resume : Controller → ℕ → Controller × List Effect
unfolding reset_cancel_handler_when_locked reset_cancel_handler
resume c token =
    if c.state == token
    then (let (c', done) =
          reset_cancel_handler_when_locked (record c { state = add64 token epoch }) in
        (record c' { state = add64 c'.state 1 }, done))
    else reset_cancel_handler c

-- An async node, up to the submission: the token, or the kind of the cancellation found instead.
pub data Registered : Type 0 where
  holding : (token : ℕ) → Registered
  refused : CancelKind → Registered

unfoldable pub register : Controller → ℕ → Controller × Registered × List Effect
unfolding lock_and_set_cancel_handler is_soft_canceled
register c param =
    let (c', state) = lock_and_set_cancel_handler c param in
    if bits state == locked then (c', holding state, []) else (
      c',
      refused (if is_soft_canceled c' then soft_cancel else hard_cancel),
      dropped param ∷ [],
    )

-- A submission that fails: the handler is dropped under the lock, and the guard unlocks.
unfoldable pub submit_failed : Controller → ℕ → Controller × List Effect
unfolding reset_cancel_handler_when_locked unlock
submit_failed c token =
    let (c', done) = reset_cancel_handler_when_locked c in (unlock c' token, done)
