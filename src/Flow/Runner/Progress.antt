-- ===== src/Flow/Runner/Progress.antt =====
-- No flow is stuck before its receiver has the result.
use flux_foundry.Prelude.{
  ℕ, zero, suc, ◌*◌, ◌-◌, ◌≤◌, ◌<◌, ◌≡◌, refl, inl, inr, Bool, true, false, Option, none, some,
  List, [], ◌∷◌, length, ◌⊎◌, arith,
}
use flux_foundry.Flow.Controller.{CancelKind}
use flux_foundry.Flow.Blueprint.{Result, Dispatcher, Node}
use flux_foundry.Flow.Blueprint.Fusion.{on, backend, Async, not_created, not_submitted, completes}
use flux_foundry.Flow.Runner.{
  Setting, Pc, ready, checked, created, waiting, posted, delivered, Runner, get_node, start,
  advance_at, advance, execute_at, resume_at, Answers, cancel_at, Step, runs, executes, resumes,
  cancels, Steps, stays, moves,
}
use flux_foundry.Flow.Runner.Ends.{budget, five_each, five-Falls, Steps-bound}
use flux_foundry.Flow.Runner.Goes.{
  IsEnd, IsRunnable, IsWithin, Goes, dispatch_impl-Goes, submit_or_release-Goes, ready-Goes,
  checked-Goes,
}

module _ {V E : Type 0} where
  Goes-IsWithin :
      (l : ℕ) (o : Option (Runner V E)) (t : Runner V E)
      → Goes l o
      → o ≡ some t
      → IsWithin l t.pc t.received
  Goes-IsWithin l none t g e = ground arith
  Goes-IsWithin l (some t') t g e = ground (arith, g, e)

  Goes-some : (l : ℕ) (o : Option (Runner V E)) → Goes l o → (t : Runner V E) × (o ≡ some t)
  Goes-some l none g = ground arith
  Goes-some l (some t) g = (t, refl)

  resume-Goes :
      (i : ℕ) (d : Dispatcher) (adaptor : Result V E → Result V E) (r' r : Result V E)
      (s : Runner V E) (l : ℕ)
      → IsWithin l (waiting i d adaptor r') s.received
      → Goes l (resume_at (waiting i d adaptor r') r s)
  resume-Goes i d adaptor r' r s l (h, k) =
      dispatch_impl-Goes d i (adaptor r) (record s { place = backend }) l (ground arith) k

  advance_at-IsWithin :
      (w : Setting V E) (p : Pc V E) (s t : Runner V E)
      → IsRunnable w.nodes
      → IsWithin (length w.nodes) p s.received
      → advance_at w p s ≡ some t
      → IsWithin (length w.nodes) t.pc t.received
  advance_at-IsWithin w (ready i x) s t r h e =
      Goes-IsWithin (length w.nodes) (advance_at w (ready i x) s) t (ready-Goes w i x s r h) e
  advance_at-IsWithin w (checked i x) s t r h e =
      Goes-IsWithin (length w.nodes) (advance_at w (checked i x) s) t (checked-Goes w i x s r h) e
  advance_at-IsWithin w (created i d adaptor a) s t r h e =
      Goes-IsWithin (length w.nodes) (advance_at w (created i d adaptor a) s) t
        (submit_or_release-Goes w d i adaptor a s.cancelled s (length w.nodes) h) e
  advance_at-IsWithin w (waiting i d adaptor a) s t r h e = ground arith
  advance_at-IsWithin w (posted executor i x) s t r h e = ground arith
  advance_at-IsWithin w (delivered x) s t r h e = ground arith

  execute_at-IsWithin :
      (l : ℕ) (p : Pc V E) (s t : Runner V E)
      → IsWithin l p s.received
      → execute_at p s ≡ some t
      → IsWithin l t.pc t.received
  execute_at-IsWithin l (ready i x) s t h e = ground arith
  execute_at-IsWithin l (checked i x) s t h e = ground arith
  execute_at-IsWithin l (created i d adaptor a) s t h e = ground arith
  execute_at-IsWithin l (waiting i d adaptor a) s t h e = ground arith
  execute_at-IsWithin l (posted executor i x) s t h e =
      Goes-IsWithin l (execute_at (posted executor i x) s) t h e
  execute_at-IsWithin l (delivered x) s t h e = ground arith

  resume_at-IsWithin :
      (l : ℕ) (p : Pc V E) (r : Result V E) (s t : Runner V E)
      → IsWithin l p s.received
      → resume_at p r s ≡ some t
      → IsWithin l t.pc t.received
  resume_at-IsWithin l (ready i x) r s t h e = ground arith
  resume_at-IsWithin l (checked i x) r s t h e = ground arith
  resume_at-IsWithin l (created i d adaptor a) r s t h e = ground arith
  resume_at-IsWithin l (waiting i d adaptor r') r s t h e =
      Goes-IsWithin l (resume_at (waiting i d adaptor r') r s) t
        (resume-Goes i d adaptor r' r s l h) e
  resume_at-IsWithin l (posted executor i x) r s t h e = ground arith
  resume_at-IsWithin l (delivered x) r s t h e = ground arith

  cancel_at-IsWithin :
      (l : ℕ) (c : Option CancelKind) (kind : CancelKind) (s t : Runner V E)
      → IsWithin l s.pc s.received
      → cancel_at c kind s ≡ some t
      → IsWithin l t.pc t.received
  cancel_at-IsWithin l none kind s t h e = Goes-IsWithin l (cancel_at none kind s) t h e
  cancel_at-IsWithin l (some k) kind s t h e = ground arith

  step-IsWithin :
      (w : Setting V E) (s t : Runner V E)
      → IsRunnable w.nodes
      → IsWithin (length w.nodes) s.pc s.received
      → Step w s t
      → IsWithin (length w.nodes) t.pc t.received
  unfolding advance
  step-IsWithin w s t r h (runs e) = advance_at-IsWithin w s.pc s t r h e
  step-IsWithin w s t r h (executes e) = execute_at-IsWithin (length w.nodes) s.pc s t h e
  step-IsWithin w s t r h (resumes x a e) = resume_at-IsWithin (length w.nodes) s.pc x s t h e
  step-IsWithin w s t r h (cancels kind e) =
      cancel_at-IsWithin (length w.nodes) s.cancelled kind s t h e

  Steps-IsWithin :
      (w : Setting V E) (n : ℕ) (s u : Runner V E)
      → IsRunnable w.nodes
      → IsWithin (length w.nodes) s.pc s.received
      → Steps w n s u
      → IsWithin (length w.nodes) u.pc u.received
  Steps-IsWithin w zero s u r h stays = h
  Steps-IsWithin w (suc n) s u r h (moves {t = t} x xs) =
      Steps-IsWithin w n t u r (step-IsWithin w s t r h x) xs

  -- The receiver has its one result, or the flow has a step to take that is no cancellation.
  abbrev pub IsOver : Pc V E → Type 0
  IsOver (ready i x) = ⊥
  IsOver (checked i x) = ⊥
  IsOver (created i d adaptor a) = ⊥
  IsOver (waiting i d adaptor r) = ⊥
  IsOver (posted executor i x) = ⊥
  IsOver (delivered x) = Unit {0}

  abbrev pub IsLive : Setting V E → Pc V E → Runner V E → Type 0
  IsLive w p s =
      ((t : Runner V E) × (advance_at w p s ≡ some t))
      ⊎ (((t : Runner V E) × (execute_at p s ≡ some t))
          ⊎ ((r : Result V E) × (Answers p s.cancelled r
                × ((t : Runner V E) × (resume_at p r s ≡ some t)))))

  Answers-own :
      (i : ℕ) (d : Dispatcher) (adaptor : Result V E → Result V E) (r : Result V E)
      (c : Option CancelKind)
      → Answers (waiting i d adaptor r) c r
  Answers-own i d adaptor r none = refl
  Answers-own i d adaptor r (some kind) = tt

  none_received :
      (i : ℕ) (d : Dispatcher) (adaptor : Result V E → Result V E) (a : Async V E) (k l : ℕ)
      → IsWithin l (created i d adaptor a) k
      → k ≡ 0
  none_received i d adaptor (not_created e) k l h = ground arith
  none_received i d adaptor not_submitted k l (h, z) = z
  none_received i d adaptor (completes r) k l (h, z) = z

  IsOver-or_IsLive :
      (w : Setting V E) (p : Pc V E) (s : Runner V E)
      → IsRunnable w.nodes
      → IsWithin (length w.nodes) p s.received
      → (IsOver p × (s.received ≡ 1)) ⊎ ((s.received ≡ 0) × IsLive w p s)
  IsOver-or_IsLive w (ready i x) s r (h, k) = inr (
    k,
    inl (Goes-some (length w.nodes) (advance_at w (ready i x) s) (ready-Goes w i x s r (h, k))),
  )
  IsOver-or_IsLive w (checked i x) s r (h, k) = inr (
    k,
    inl (Goes-some (length w.nodes) (advance_at w (checked i x) s) (checked-Goes w i x s r (h, k))),
  )
  IsOver-or_IsLive w (created i d adaptor a) s r h = inr (
    none_received i d adaptor a s.received (length w.nodes) h,
    inl (
        Goes-some (length w.nodes) (advance_at w (created i d adaptor a) s)
          (submit_or_release-Goes w d i adaptor a s.cancelled s (length w.nodes) h)),
  )
  IsOver-or_IsLive w (waiting i d adaptor r') s r (h, k) = inr (
    k,
    inr (
        inr (
          r',
          (
            Answers-own i d adaptor r' s.cancelled,
            Goes-some (length w.nodes) (resume_at (waiting i d adaptor r') r' s)
                (resume-Goes i d adaptor r' r' s (length w.nodes) (h, k)),
          ),
        )),
  )
  IsOver-or_IsLive w (posted executor i x) s r (h, k) =
      inr (k, inr (inl (record s { pc = ready i x; place = on executor }, refl)))
  IsOver-or_IsLive w (delivered x) s r h = inl (tt, h)

  has_end_length :
      (nodes : List (Node V E)) → IsEnd (get_node nodes 0) → length nodes - 1 < length nodes
  has_end_length [] h = ground arith
  has_end_length (b ∷ others) h = ground arith

  started_budget :
      (w : Setting V E) (b c : Bool) (x : Result V E) (s : Runner V E)
      → IsRunnable w.nodes
      → start w b c x ≡ some s
      → budget five_each s ≤ 5 * length w.nodes
  unfolding start
  started_budget w true true x s (h, shape) e = ground (arith, e, has_end_length w.nodes h)
  started_budget w true false x s r e = ground arith
  started_budget w false c x s r e = ground arith

  start-IsWithin :
      (w : Setting V E) (b c : Bool) (x : Result V E) (s : Runner V E)
      → IsRunnable w.nodes
      → start w b c x ≡ some s
      → IsWithin (length w.nodes) s.pc s.received
  unfolding start
  start-IsWithin w true true x s (h, shape) e =
      Goes-IsWithin (length w.nodes) (start w true true x) s (has_end_length w.nodes h, refl) e
  start-IsWithin w true false x s r e = ground arith
  start-IsWithin w false c x s r e = ground arith

  -- A flow that is started, whatever runs and whoever cancels it: it takes at most five steps for a
  -- node and one for the cancellation, and after any of them either its receiver has been called,
  -- once, or the flow, an executor or its awaitable has a next step to take.
  pub runs_to_end :
      (w : Setting V E) (b c : Bool) (x : Result V E) (s t : Runner V E) (n : ℕ)
      → IsRunnable w.nodes
      → start w b c x ≡ some s
      → Steps w n s t
      → (n ≤ 5 * length w.nodes)
        × ((IsOver t.pc × (t.received ≡ 1)) ⊎ ((t.received ≡ 0) × IsLive w t.pc t))
  runs_to_end w b c x s t n r e xs = (
    ground (
      arith,
      started_budget w b c x s r e,
      Steps-bound five_each w n s t (five-Falls s.cancelled) xs,
    ),
    IsOver-or_IsLive w t.pc t r (Steps-IsWithin w n s t r (start-IsWithin w b c x s r e) xs),
  )
