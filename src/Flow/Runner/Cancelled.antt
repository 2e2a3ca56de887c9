-- ===== src/Flow/Runner/Cancelled.antt =====
-- A flow after its cancellation.
use flux_foundry.Prelude.{
  ℕ, zero, suc, ◌+◌, ◌≤◌, ◌≡◌, refl, inl, inr, Bool, true, false, Option, none, some, if◌then◌else◌,
  Bool-cases, arith, ◌==◌,
}
use flux_foundry.Flow.Controller.{CancelKind, soft_cancel, hard_cancel}
use flux_foundry.Flow.Blueprint.{Result, error, Dispatcher, Node, calc, via, async, end}
use flux_foundry.Flow.Blueprint.Fusion.{backend, Async, not_created, not_submitted, completes}
use flux_foundry.Flow.Runner.{
  Setting, Pc, ready, checked, created, waiting, posted, delivered, Runner, get_node, dispatch_impl,
  count_call, is_force_canceled, is_soft_canceled, run_end, emplace_end, create, dispatch, submit,
  submit_or_release, advance_at, advance, execute_at, resume_at, cancel_at, Step, runs, executes,
  resumes, cancels, Steps, stays, moves,
}
use flux_foundry.Flow.Runner.Ends.{step_cancelled, Steps-bound, rank}

module _ {V E : Type 0} where
  flat_rank : (p : Pc V E) → rank (λ i. 0) p ≤ 5
  flat_rank (ready i x) = ground arith
  flat_rank (checked i x) = ground arith
  flat_rank (created i d adaptor a) = ground arith
  flat_rank (waiting i d adaptor r) = ground arith
  flat_rank (posted executor i x) = ground arith
  flat_rank (delivered x) = ground arith

  -- After a hard cancellation a flow takes five steps at most, however many nodes are left: it runs
  -- no node but the one that it has begun, and the end.
  pub hard_cancel_ends :
      (w : Setting V E) (s t : Runner V E) (n : ℕ)
      → s.cancelled ≡ some hard_cancel
      → Steps w n s t
      → n ≤ 5
  hard_cancel_ends w s t n z xs =
      ground (arith, z, flat_rank s.pc, Steps-bound (λ i. 0) w n s t (inr z) xs)

  -- `k` calls of `submit_async` at node `j`.
  abbrev Submits : ℕ → ℕ → Option (Runner V E) → Type 0
  Submits j k none = Unit {0}
  Submits j k (some t) = t.submissions j ≡ k

  dispatch_impl-Submits :
      (j : ℕ) (d : Dispatcher) (i : ℕ) (x : Result V E) (s : Runner V E)
      → Submits j (s.submissions j) (some (dispatch_impl d i x s))
  dispatch_impl-Submits j d i x s = elim (Bool-cases d.is_inline) [
    | inl y ↦ ground (arith, y)
    | inr n ↦ ground (arith, n)
  ]

  if-Submits :
      (j : ℕ) (b : Bool) (k : ℕ) (o o' : Option (Runner V E))
      → Submits j k o
      → Submits j k o'
      → Submits j k (if b then o else o')
  if-Submits j true k o o' n n' = n
  if-Submits j false k o o' n n' = n'

  emplace_end-Submits :
      (j : ℕ) (b : Option (Node V E)) (x : Result V E) (s : Runner V E)
      → Submits j (s.submissions j) (emplace_end b x s)
  emplace_end-Submits j none x s = tt
  emplace_end-Submits j (some (calc n f)) x s = tt
  emplace_end-Submits j (some (via d)) x s = tt
  emplace_end-Submits j (some (async d a)) x s = tt
  emplace_end-Submits j (some (end f)) x s = refl

  create-Submits :
      (j : ℕ) (d : Dispatcher) (i : ℕ) (adaptor : Result V E → Result V E) (a : Async V E)
      (s : Runner V E)
      → Submits j (s.submissions j) (some (create d i adaptor a s))
  create-Submits j d i adaptor (not_created e) s =
      dispatch_impl-Submits j d i (error e) (record s { operations = s.operations + 1 })
  create-Submits j d i adaptor not_submitted s = refl
  create-Submits j d i adaptor (completes r) s = refl

  dispatch-Submits :
      (j : ℕ) (w : Setting V E) (b : Option (Node V E)) (i : ℕ) (x : Result V E) (canceled : Bool)
      (s : Runner V E)
      → Submits j (s.submissions j) (dispatch w b i x canceled s)
  dispatch-Submits j w none i x canceled s = tt
  dispatch-Submits j w (some (calc n f)) i x canceled s = refl
  dispatch-Submits j w (some (via d)) i x canceled s = dispatch_impl-Submits j d i x s
  dispatch-Submits j w (some (async d a)) i x true s =
      dispatch_impl-Submits j d i (error (w.cancel_error soft_cancel)) s
  dispatch-Submits j w (some (async d a)) i x false s =
      create-Submits j d i a (w.outcomes s.operations x) s
  dispatch-Submits j w (some (end f)) i x canceled s = tt

  call_elsewhere :
      (j i : ℕ) (s : Runner V E)
      → ((i + 1) == j) ≡ false
      → (count_call i s).submissions j ≡ s.submissions j
  call_elsewhere j i s other = ground (arith, other)

  -- A call at another node.
  submit-Submits :
      (j : ℕ) (w : Setting V E) (d : Dispatcher) (i : ℕ) (adaptor : Result V E → Result V E)
      (a : Async V E) (s : Runner V E)
      → ((i + 1) == j) ≡ false
      → Submits j (s.submissions j) (submit w d i adaptor a s)
  submit-Submits j w d i adaptor (not_created e) s other = tt
  submit-Submits j w d i adaptor not_submitted s other =
      rw (call_elsewhere j i s other) at
        (dispatch_impl-Submits j d i (error w.submission_failed) (count_call i s))
  submit-Submits j w d i adaptor (completes r) s other = call_elsewhere j i s other

  release-Submits :
      (j : ℕ) (w : Setting V E) (d : Dispatcher) (i : ℕ) (adaptor : Result V E → Result V E)
      (a : Async V E) (c : Option CancelKind) (k : CancelKind) (s : Runner V E)
      → w.is_fast j ≡ false
      → c ≡ some k
      → Submits j (s.submissions j) (submit_or_release w d i adaptor a c s)
  release-Submits j w d i adaptor a none k s slow z = ground (arith, z)
  release-Submits j w d i adaptor a (some kind) k s slow z = elim (Bool-cases (w.is_fast (i + 1))) [
    | inl y ↦ rw y (submit-Submits j w d i adaptor a s (ground (arith, y, slow)))
    | inr m ↦ rw m (dispatch_impl-Submits j d i (error (w.cancel_error kind)) s)
  ]

  advance_at-Submits :
      (j : ℕ) (w : Setting V E) (p : Pc V E) (k : CancelKind) (s : Runner V E)
      → w.is_fast j ≡ false
      → s.cancelled ≡ some k
      → Submits j (s.submissions j) (advance_at w p s)
  advance_at-Submits j w (ready zero x) k s slow z = emplace_end-Submits j (get_node w.nodes 0) x s
  advance_at-Submits j w (ready (suc i) x) k s slow z =
      if-Submits j (is_force_canceled s.cancelled) (s.submissions j)
        (run_end w (error (w.cancel_error hard_cancel)) s) (some (record s { pc = checked i x }))
        (emplace_end-Submits j (get_node w.nodes 0) (error (w.cancel_error hard_cancel)) s) refl
  advance_at-Submits j w (checked i x) k s slow z =
      if-Submits j (is_soft_canceled s.cancelled) (s.submissions j)
        (dispatch w (get_node w.nodes (suc i)) i (error (w.cancel_error soft_cancel)) true s)
        (dispatch w (get_node w.nodes (suc i)) i x false s)
        (dispatch-Submits j w (get_node w.nodes (suc i)) i (error (w.cancel_error soft_cancel)) true
          s)
        (dispatch-Submits j w (get_node w.nodes (suc i)) i x false s)
  advance_at-Submits j w (created i d adaptor a) k s slow z =
      release-Submits j w d i adaptor a s.cancelled k s slow z
  advance_at-Submits j w (waiting i d adaptor r) k s slow z = tt
  advance_at-Submits j w (posted executor i x) k s slow z = tt
  advance_at-Submits j w (delivered x) k s slow z = tt

  execute_at-Submits :
      (j : ℕ) (p : Pc V E) (s : Runner V E) → Submits j (s.submissions j) (execute_at p s)
  execute_at-Submits j (ready i x) s = tt
  execute_at-Submits j (checked i x) s = tt
  execute_at-Submits j (created i d adaptor a) s = tt
  execute_at-Submits j (waiting i d adaptor r) s = tt
  execute_at-Submits j (posted executor i x) s = refl
  execute_at-Submits j (delivered x) s = tt

  resume_at-Submits :
      (j : ℕ) (p : Pc V E) (r : Result V E) (s : Runner V E)
      → Submits j (s.submissions j) (resume_at p r s)
  resume_at-Submits j (ready i x) r s = tt
  resume_at-Submits j (checked i x) r s = tt
  resume_at-Submits j (created i d adaptor a) r s = tt
  resume_at-Submits j (waiting i d adaptor r') r s =
      dispatch_impl-Submits j d i (adaptor r) (record s { place = backend })
  resume_at-Submits j (posted executor i x) r s = tt
  resume_at-Submits j (delivered x) r s = tt

  cancel_at-Submits :
      (j : ℕ) (c : Option CancelKind) (kind : CancelKind) (s : Runner V E)
      → Submits j (s.submissions j) (cancel_at c kind s)
  cancel_at-Submits j none kind s = refl
  cancel_at-Submits j (some k) kind s = tt

  Submits-same :
      (j k : ℕ) (o : Option (Runner V E)) (t : Runner V E)
      → Submits j k o
      → o ≡ some t
      → t.submissions j ≡ k
  Submits-same j k none t h e = ground arith
  Submits-same j k (some t') t h e = ground (arith, h, e)

  step_submits :
      (j : ℕ) (w : Setting V E) (s t : Runner V E) (k : CancelKind)
      → w.is_fast j ≡ false
      → s.cancelled ≡ some k
      → Step w s t
      → t.submissions j ≡ s.submissions j
  unfolding advance
  step_submits j w s t k slow z (runs e) =
      Submits-same j (s.submissions j) (advance w s) t (advance_at-Submits j w s.pc k s slow z) e
  step_submits j w s t k slow z (executes e) =
      Submits-same j (s.submissions j) (execute_at s.pc s) t (execute_at-Submits j s.pc s) e
  step_submits j w s t k slow z (resumes r a e) =
      Submits-same j (s.submissions j) (resume_at s.pc r s) t (resume_at-Submits j s.pc r s) e
  step_submits j w s t k slow z (cancels kind e) =
      Submits-same j (s.submissions j) (cancel_at s.cancelled kind s) t
        (cancel_at-Submits j s.cancelled kind s) e

  -- Once a flow is cancelled, softly or hard, and as long as it runs, `submit_async` is not called
  -- any more at any node whose awaitable can be cancelled (is not a fast one), whatever the other
  -- nodes are; and the cancellation stays as it is.
  pub none_submitted :
      (j : ℕ) (w : Setting V E) (s u : Runner V E) (k : CancelKind) (n : ℕ)
      → w.is_fast j ≡ false
      → s.cancelled ≡ some k
      → Steps w n s u
      → (u.submissions j ≡ s.submissions j) × (u.cancelled ≡ some k)
  none_submitted j w s u k zero slow z stays = (refl, z)
  none_submitted j w s u k (suc n) slow z (moves {t = t} x xs) = ground (
    arith,
    step_submits j w s t k slow z x,
    none_submitted j w t u k n slow (step_cancelled w s t k x z) xs,
  )
