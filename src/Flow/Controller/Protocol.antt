-- ===== src/Flow/Controller/Protocol.antt =====
-- One flow and any number of cancelling threads over one `flow_controller`, call by call.
use native.Mathlib.Numerals.{add-one}
use flux_foundry.Prelude.{
  ℕ, zero, suc, ◌+◌, ◌*◌, ◌^◌, ◌≤◌, ◌<◌, ◌≡◌, ◌≢◌, refl, Bool, Option, none, some, List, [], ◌∷◌,
  ◌==◌, if◌then◌else◌, update, arith,
}
use flux_foundry.Flow.Controller.{
  Controller, Effect, cancel_called, dropped, fresh, bits, cancel, register, resume, submit_failed,
  unlock, Registered, holding, refused,
}

-- How often the awaitable `p` is told that its handler was dropped, or has it called.
abbrev pub drops : ℕ → List Effect → ℕ
drops p [] = 0
drops p (cancel_called k kind ∷ es) = drops p es
drops p (dropped k ∷ es) = (if k == p then 1 else 0) + drops p es

abbrev pub cancels : ℕ → List Effect → ℕ
cancels p [] = 0
cancels p (cancel_called k kind ∷ es) = (if k == p then 1 else 0) + cancels p es
cancels p (dropped k ∷ es) = cancels p es

-- The controller, the async operation in flight (awaitable and token), and the history: how often
-- each awaitable provided its handler, was told of the drop, and was cancelled.
pub record Flow : Type 0 where
  pub ctl : Controller
  pub waiting : Option (ℕ × ℕ)
  pub provided : ℕ → ℕ
  pub told : ℕ → ℕ
  pub canceled : ℕ → ℕ

abbrev pub start : Flow
start = record { ctl = fresh; waiting = none; provided = λ p. 0; told = λ p. 0; canceled = λ p. 0 }

-- The flow after a call that left the controller `c`, with the operation `w` in flight.
abbrev pub after : Flow → Option (ℕ × ℕ) → Controller × List Effect → Flow
after f w (c, es) = record f {
  ctl = c;
  waiting = w;
  told = λ p. f.told p + drops p es;
  canceled = λ p. f.canceled p + cancels p es;
}

-- What an async node leaves in flight.
abbrev pub in_flight : ℕ → Registered → Option (ℕ × ℕ)
in_flight param (holding token) = some (param, token)
in_flight param (refused kind) = none

abbrev pub provide : Flow → ℕ → Flow
provide f param = record f { provided = update f.provided param (f.provided param + 1) }

abbrev pub register_flow : Flow → ℕ → Controller × Registered × List Effect → Flow
register_flow f param (c, r, es) = after (provide f param) (in_flight param r) (c, es)

-- The runner registers when nothing is in flight; the guard of a submission may unlock its token at
-- any later time, before or after the operation resumes; anyone may cancel.
pub data Step (f : Flow) : Flow → Type 0 where
  begin : (param : ℕ) → f.waiting ≡ none → Step f (register_flow f param (register f.ctl param))
  guard_exit : (token : ℕ) → bits token ≡ 3 → Step f (record f { ctl = unlock f.ctl token })
  completion :
      (param token : ℕ)
      → f.waiting ≡ some (param, token)
      → Step f (after f none (resume f.ctl token))
  failure :
      (param token : ℕ)
      → f.waiting ≡ some (param, token)
      → f.ctl.state ≡ token
      → bits token ≡ 3
      → Step f (after f none (submit_failed f.ctl token))
  cancellation :
      (force : Bool) {c : Controller} {es : List Effect}
      → cancel f.ctl force ≡ some (c, es)
      → Step f (after f f.waiting (c, es))

pub data Reach : ℕ → Flow → Type 0 where
  initial : Reach zero start
  later : {n : ℕ} {f g : Flow} → Reach n f → Step f g → Reach (suc n) g

abbrev pub registered : Option ℕ → ℕ → ℕ
registered none p = 0
registered (some k) p = if k == p then 1 else 0

-- A handler is that of the operation in flight, the lock is held only for that operation, under its
-- token, and after a cancellation no handler is left.
abbrev pub Fits : Option (ℕ × ℕ) → Option ℕ → ℕ → Type 0
Fits w none word = bits word ≢ 3
Fits none (some k) word = ⊥
Fits (some (p, t)) (some k) word =
    (k ≡ p) × (bits word ≡ 3 → word ≡ t) × (bits word ≢ 1) × (bits word ≢ 2)

abbrev pub TokenFits : Option (ℕ × ℕ) → Type 0
TokenFits none = Unit
TokenFits (some (p, t)) = bits t ≡ 3

-- What holds after at most `n` steps.
pub record Inv (n : ℕ) (f : Flow) : Type 0 where
  pub few : f.ctl.state ≤ 8 * n
  pub fits : Fits f.waiting f.ctl.handler f.ctl.state
  pub token_fits : TokenFits f.waiting
  pub balanced : (p : ℕ) → f.provided p ≡ f.told p + registered f.ctl.handler p
  pub called : (p : ℕ) → f.canceled p ≤ f.told p

start-Inv : Inv 0 start
start-Inv = record {
  few = omega arith;
  fits = omega arith;
  token_fits = tt;
  balanced = λ p. refl;
  called = λ p. omega arith;
}

module _ {n : ℕ} {f : Flow} (inv : Inv n f) (small : n < 2 ^ 60) where
  begin-Inv :
      (param : ℕ) → f.waiting ≡ none → Inv (n + 1) (register_flow f param (register f.ctl param))
  unfolding register
  begin-Inv param idle = record {
    few = ground (arith, inv.few);
    fits = ground (arith, inv.few, inv.fits, inv.token_fits);
    token_fits = ground (arith, inv.few, inv.token_fits);
    balanced = λ p. ground (arith, inv.balanced p, inv.fits);
    called = λ p. ground (arith, inv.called p);
  }

  guard_exit-Inv :
      (token : ℕ) → bits token ≡ 3 → Inv (n + 1) (record f { ctl = unlock f.ctl token })
  unfolding unlock
  guard_exit-Inv token b = record {
    few = ground (arith, inv.few);
    fits = ground (arith, inv.few, inv.fits, inv.token_fits);
    token_fits = ground (arith, inv.few, inv.token_fits);
    balanced = λ p. ground (arith, inv.balanced p);
    called = λ p. ground (arith, inv.called p);
  }

  completion-Inv :
      (param token : ℕ)
      → f.waiting ≡ some (param, token)
      → Inv (n + 1) (after f none (resume f.ctl token))
  unfolding resume
  completion-Inv param token w = record {
    few = ground (arith, inv.few);
    fits = ground (arith, inv.few, inv.fits, inv.token_fits);
    token_fits = ground (arith, inv.few, inv.token_fits);
    balanced = λ p. ground (arith, inv.few, inv.fits, inv.balanced p);
    called = λ p. ground (arith, inv.called p);
  }

  failure-Inv :
      (param token : ℕ)
      → f.waiting ≡ some (param, token)
      → f.ctl.state ≡ token
      → bits token ≡ 3
      → Inv (n + 1) (after f none (submit_failed f.ctl token))
  unfolding submit_failed
  failure-Inv param token w e b = record {
    few = ground (arith, inv.few);
    fits = ground (arith, inv.few, inv.fits, inv.token_fits);
    token_fits = ground (arith, inv.few, inv.token_fits);
    balanced = λ p. ground (arith, inv.few, inv.fits, inv.balanced p);
    called = λ p. ground (arith, inv.called p);
  }

  cancellation-Inv :
      (force : Bool) {c : Controller} {es : List Effect}
      → cancel f.ctl force ≡ some (c, es)
      → Inv (n + 1) (after f f.waiting (c, es))
  unfolding cancel
  cancellation-Inv force e = record {
    few = ground (arith, inv.few);
    fits = ground (arith, inv.few, inv.fits, inv.token_fits);
    token_fits = ground (arith, inv.few, inv.token_fits);
    balanced = λ p. ground (arith, inv.balanced p);
    called = λ p. ground (arith, inv.called p);
  }

pub Step-Inv : {n : ℕ} {f g : Flow} → n < 2 ^ 60 → Inv n f → Step f g → Inv (n + 1) g
Step-Inv small inv (begin param idle) = begin-Inv inv small param idle
Step-Inv small inv (guard_exit token b) = guard_exit-Inv inv small token b
Step-Inv small inv (completion param token w) = completion-Inv inv small param token w
Step-Inv small inv (failure param token w e b) = failure-Inv inv small param token w e b
Step-Inv small inv (cancellation force e) = cancellation-Inv inv small force e

pub Reach-Inv : {n : ℕ} {f : Flow} → n < 2 ^ 60 → Reach n f → Inv n f
Reach-Inv small initial = start-Inv
Reach-Inv {n = suc n} small (later r st) =
    rw (add-one n) at (Step-Inv (omega arith) (Reach-Inv (omega arith) r) st)
