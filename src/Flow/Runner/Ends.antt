-- ===== src/Flow/Runner/Ends.antt =====
-- Every flow comes to its receiver.
use flux_foundry.Prelude.{
  ℕ, zero, suc, ◌+◌, ◌*◌, ◌≤◌, ◌<◌, ◌≡◌, refl, inl, inr, Bool, true, false, Option, none, some,
  if◌then◌else◌, Bool-cases, ◌⊎◌, ◌≢◌, ◌∙◌, arith,
}
use flux_foundry.Flow.Controller.{CancelKind, soft_cancel, hard_cancel}
use flux_foundry.Flow.Blueprint.{Result, error, Dispatcher, Node, calc, via, async, end}
use flux_foundry.Flow.Blueprint.Fusion.{backend, Async, not_created, not_submitted, completes}
use flux_foundry.Flow.Runner.{
  Setting, Pc, ready, checked, created, waiting, posted, delivered, Runner, get_node, dispatch_impl,
  count_call, is_force_canceled, is_soft_canceled, emplace_end, create, dispatch, submit,
  submit_or_release, advance_at, advance, execute_at, resume_at, cancel_at, Step, runs, executes,
  resumes, cancels, Steps, stays, moves,
}

abbrev pub cancels_left : Option CancelKind → ℕ
cancels_left none = 1
cancels_left (some kind) = 0

module _ {V E : Type 0} where
  -- How many steps a flow takes at most from where it is, when nobody cancels it any more, if node
  -- `i` is run and left `r i` steps before the end.
  abbrev pub rank : (ℕ → ℕ) → Pc V E → ℕ
  rank r (ready i x) = r i + 1
  rank r (checked i x) = r i + 5
  rank r (created i d adaptor a) = r i + 4
  rank r (waiting i d adaptor y) = r i + 3
  rank r (posted executor i x) = r i + 2
  rank r (delivered x) = 0

  abbrev pub budget : (ℕ → ℕ) → Runner V E → ℕ
  budget r s = rank r s.pc + cancels_left s.cancelled

-- A node costs five steps at most, but for a flow that is cancelled hard and runs no more nodes.
abbrev pub Falls : (ℕ → ℕ) → Option CancelKind → Type 0
Falls r c = ((i : ℕ) → r i + 5 ≤ r (suc i)) ⊎ (c ≡ some hard_cancel)

ready-Falls :
    (r : ℕ → ℕ) (i : ℕ) (c : Option CancelKind)
    → Falls r c
    → (r i + 5 ≤ r (suc i)) ⊎ (is_force_canceled c ≡ true)
ready-Falls r i c (inl f) = inl (f i)
ready-Falls r i c (inr z) = inr (ground arith)

-- A step leaves the cancellation as it is, or cancels.
abbrev Keeps : Option CancelKind → Option CancelKind → Type 0
Keeps c c' = (c' ≡ c) ⊎ ((c ≡ none) × (c' ≢ none))

Keeps-Falls : (r : ℕ → ℕ) (c c' : Option CancelKind) → Falls r c → Keeps c c' → Falls r c'
Keeps-Falls r c c' (inl f) k = inl f
Keeps-Falls r c c' (inr z) (inl e) = inr (e ∙ z)
Keeps-Falls r c c' (inr z) (inr (n, m)) = ground (arith, z, n)

module _ {V E : Type 0} (r : ℕ → ℕ) where
  -- A step of the flow brings it closer to its end, and leaves the cancellation as it is.
  abbrev Nearer : ℕ → Option CancelKind → Option (Runner V E) → Type 0
  Nearer k c none = Unit {0}
  Nearer k c (some t) = (rank r t.pc < k) × (t.cancelled ≡ c)

  dispatch_impl-Nearer :
      (d : Dispatcher) (i : ℕ) (x : Result V E) (s : Runner V E) (k : ℕ)
      → r i + 2 < k
      → Nearer k s.cancelled (some (dispatch_impl d i x s))
  dispatch_impl-Nearer d i x s k h = elim (Bool-cases d.is_inline) [
    | inl y ↦ ground (arith, y)
    | inr n ↦ ground (arith, n)
  ]

  if-Nearer :
      (b : Bool) (k : ℕ) (c : Option CancelKind) (o o' : Option (Runner V E))
      → Nearer k c o
      → Nearer k c o'
      → Nearer k c (if b then o else o')
  if-Nearer true k c o o' n n' = n
  if-Nearer false k c o o' n n' = n'

  emplace_end-Nearer :
      (b : Option (Node V E)) (x : Result V E) (s : Runner V E) (k : ℕ)
      → 0 < k
      → Nearer k s.cancelled (emplace_end b x s)
  emplace_end-Nearer none x s k h = ground arith
  emplace_end-Nearer (some (calc n f)) x s k h = ground arith
  emplace_end-Nearer (some (via d)) x s k h = ground arith
  emplace_end-Nearer (some (async d a)) x s k h = ground arith
  emplace_end-Nearer (some (end f)) x s k h = ground arith

  create-Nearer :
      (d : Dispatcher) (i : ℕ) (adaptor : Result V E → Result V E) (a : Async V E) (s : Runner V E)
      (k : ℕ)
      → r i + 4 < k
      → Nearer k s.cancelled (some (create d i adaptor a s))
  create-Nearer d i adaptor (not_created e) s k h =
      dispatch_impl-Nearer d i (error e) (record s { operations = s.operations + 1 }) k
        (ground arith)
  create-Nearer d i adaptor not_submitted s k h = ground arith
  create-Nearer d i adaptor (completes r) s k h = ground arith

  dispatch-Nearer :
      (w : Setting V E) (b : Option (Node V E)) (i : ℕ) (x : Result V E) (canceled : Bool)
      (s : Runner V E)
      → Nearer (r i + 5) s.cancelled (dispatch w b i x canceled s)
  dispatch-Nearer w none i x canceled s = ground arith
  dispatch-Nearer w (some (calc n f)) i x canceled s = ground arith
  dispatch-Nearer w (some (via d)) i x canceled s =
      dispatch_impl-Nearer d i x s (r i + 5) (ground arith)
  dispatch-Nearer w (some (async d a)) i x true s =
      dispatch_impl-Nearer d i (error (w.cancel_error soft_cancel)) s (r i + 5) (ground arith)
  dispatch-Nearer w (some (async d a)) i x false s =
      create-Nearer d i a (w.outcomes s.operations x) s (r i + 5) (ground arith)
  dispatch-Nearer w (some (end f)) i x canceled s = ground arith

  submit-Nearer :
      (w : Setting V E) (d : Dispatcher) (i : ℕ) (adaptor : Result V E → Result V E) (a : Async V E)
      (s : Runner V E)
      → Nearer (r i + 4) s.cancelled (submit w d i adaptor a s)
  submit-Nearer w d i adaptor (not_created e) s = ground arith
  submit-Nearer w d i adaptor not_submitted s =
      dispatch_impl-Nearer d i (error w.submission_failed) (count_call i s) (r i + 4) (ground arith)
  submit-Nearer w d i adaptor (completes r) s = ground arith

  submit_or_release-Nearer :
      (w : Setting V E) (d : Dispatcher) (i : ℕ) (adaptor : Result V E → Result V E) (a : Async V E)
      (c : Option CancelKind) (s : Runner V E)
      → Nearer (r i + 4) s.cancelled (submit_or_release w d i adaptor a c s)
  submit_or_release-Nearer w d i adaptor a none s = submit-Nearer w d i adaptor a s
  submit_or_release-Nearer w d i adaptor a (some kind) s =
      if-Nearer (w.is_fast (i + 1)) (r i + 4) s.cancelled (submit w d i adaptor a s)
        (some (dispatch_impl d i (error (w.cancel_error kind)) s)) (submit-Nearer w d i adaptor a s)
        (dispatch_impl-Nearer d i (error (w.cancel_error kind)) s (r i + 4) (ground arith))

  advance_at-Nearer :
      (w : Setting V E) (p : Pc V E) (s : Runner V E)
      → Falls r s.cancelled
      → Nearer (rank r p) s.cancelled (advance_at w p s)
  advance_at-Nearer w (ready zero x) s f =
      emplace_end-Nearer (get_node w.nodes 0) x s (r 0 + 1) (ground arith)
  advance_at-Nearer w (ready (suc i) x) s f = elim (Bool-cases (is_force_canceled s.cancelled)) [
    | inl y ↦ rw y (
        emplace_end-Nearer (get_node w.nodes 0) (error (w.cancel_error hard_cancel)) s
          (r (suc i) + 1) (ground arith))
    | inr n ↦ ground (arith, n, ready-Falls r i s.cancelled f)
  ]
  advance_at-Nearer w (checked i x) s f =
      if-Nearer (is_soft_canceled s.cancelled) (r i + 5) s.cancelled
        (dispatch w (get_node w.nodes (suc i)) i (error (w.cancel_error soft_cancel)) true s)
        (dispatch w (get_node w.nodes (suc i)) i x false s)
        (dispatch-Nearer w (get_node w.nodes (suc i)) i (error (w.cancel_error soft_cancel)) true s)
        (dispatch-Nearer w (get_node w.nodes (suc i)) i x false s)
  advance_at-Nearer w (created i d adaptor a) s f =
      submit_or_release-Nearer w d i adaptor a s.cancelled s
  advance_at-Nearer w (waiting i d adaptor y) s f = ground arith
  advance_at-Nearer w (posted executor i x) s f = ground arith
  advance_at-Nearer w (delivered x) s f = ground arith

  execute_at-Nearer : (p : Pc V E) (s : Runner V E) → Nearer (rank r p) s.cancelled (execute_at p s)
  execute_at-Nearer (ready i x) s = ground arith
  execute_at-Nearer (checked i x) s = ground arith
  execute_at-Nearer (created i d adaptor a) s = ground arith
  execute_at-Nearer (waiting i d adaptor y) s = ground arith
  execute_at-Nearer (posted executor i x) s = ground arith
  execute_at-Nearer (delivered x) s = ground arith

  resume_at-Nearer :
      (p : Pc V E) (y : Result V E) (s : Runner V E)
      → Nearer (rank r p) s.cancelled (resume_at p y s)
  resume_at-Nearer (ready i x) y s = ground arith
  resume_at-Nearer (checked i x) y s = ground arith
  resume_at-Nearer (created i d adaptor a) y s = ground arith
  resume_at-Nearer (waiting i d adaptor y') y s =
      dispatch_impl-Nearer d i (adaptor y) (record s { place = backend }) (r i + 3) (ground arith)
  resume_at-Nearer (posted executor i x) y s = ground arith
  resume_at-Nearer (delivered x) y s = ground arith

  Nearer-step :
      (s t : Runner V E) (o : Option (Runner V E))
      → Nearer (rank r s.pc) s.cancelled o
      → o ≡ some t
      → (budget r t < budget r s) × Keeps s.cancelled t.cancelled
  Nearer-step s t none n e = ground arith
  Nearer-step s t (some t') n e = ground (arith, n, e)

  cancel_at_step :
      (c : Option CancelKind) (kind : CancelKind) (s t : Runner V E)
      → c ≡ s.cancelled
      → cancel_at c kind s ≡ some t
      → (budget r t < budget r s) × Keeps s.cancelled t.cancelled
  cancel_at_step none kind s t same e = ground (arith, e, same)
  cancel_at_step (some k) kind s t same e = ground (arith, e)

  step_lem :
      (w : Setting V E) (s t : Runner V E)
      → Falls r s.cancelled
      → Step w s t
      → (budget r t < budget r s) × Keeps s.cancelled t.cancelled
  unfolding advance
  step_lem w s t f (runs e) = Nearer-step s t (advance w s) (advance_at-Nearer w s.pc s f) e
  step_lem w s t f (executes e) = Nearer-step s t (execute_at s.pc s) (execute_at-Nearer s.pc s) e
  step_lem w s t f (resumes y a e) =
      Nearer-step s t (resume_at s.pc y s) (resume_at-Nearer s.pc y s) e
  step_lem w s t f (cancels kind e) = cancel_at_step s.cancelled kind s t refl e

  pub Steps-bound :
      (w : Setting V E) (n : ℕ) (s u : Runner V E)
      → Falls r s.cancelled
      → Steps w n s u
      → n + budget r u ≤ budget r s
  Steps-bound w zero s u f stays = ground arith
  Steps-bound w (suc n) s u f (moves {t = t} x xs) = ground (
    arith,
    step_lem w s t f x,
    Steps-bound w n t u (Keeps-Falls r s.cancelled t.cancelled f (step_lem w s t f x).1) xs,
  )

-- Five steps for each node that is left.
abbrev pub five_each : ℕ → ℕ
five_each i = 5 * i

pub five-Falls : (c : Option CancelKind) → Falls five_each c
five-Falls c = inl (λ i. ground arith)

module _ {V E : Type 0} where
  -- A flow that is not cancelled has not been; one that is cancelled hard stays so.
  pub step_uncancelled :
      (w : Setting V E) (s t : Runner V E) → Step w s t → t.cancelled ≡ none → s.cancelled ≡ none
  step_uncancelled w s t x z =
      ground (arith, z, step_lem five_each w s t (five-Falls s.cancelled) x)

  pub step_cancelled :
      (w : Setting V E) (s t : Runner V E) (k : CancelKind)
      → Step w s t
      → s.cancelled ≡ some k
      → t.cancelled ≡ some k
  step_cancelled w s t k x z =
      ground (arith, z, step_lem five_each w s t (five-Falls s.cancelled) x)
