-- ===== src/Flow/Runner/Goes.antt =====
-- The next step of a flow that is not over leads to a state with a next node.
use flux_foundry.Prelude.{
  ℕ, zero, suc, ◌+◌, ◌<◌, ◌≡◌, inl, inr, Bool, true, false, Option, none, some, List, [], ◌∷◌,
  if◌then◌else◌, Bool-cases, length, arith,
}
use flux_foundry.Flow.Controller.{CancelKind, soft_cancel, hard_cancel}
use flux_foundry.Flow.Blueprint.{Result, error, Dispatcher, Node, calc, via, async, end}
use flux_foundry.Flow.Blueprint.Fusion.{Async, not_created, not_submitted, completes}
use flux_foundry.Flow.Blueprint.Shape.{IsShaped}
use flux_foundry.Flow.Runner.{
  Setting, Pc, ready, checked, created, waiting, posted, delivered, Runner, get_node, dispatch_impl,
  count_call, is_force_canceled, is_soft_canceled, run_end, emplace_end, create, dispatch, submit,
  submit_or_release, advance_at,
}

module _ {V E : Type 0} where
  abbrev pub IsEnd : Option (Node V E) → Type 0
  IsEnd none = ⊥
  IsEnd (some (calc n f)) = ⊥
  IsEnd (some (via d)) = ⊥
  IsEnd (some (async d a)) = ⊥
  IsEnd (some (end f)) = Unit {0}

  abbrev pub IsMiddle : Option (Node V E) → Type 0
  IsMiddle none = ⊥
  IsMiddle (some (calc n f)) = Unit {0}
  IsMiddle (some (via d)) = Unit {0}
  IsMiddle (some (async d a)) = Unit {0}
  IsMiddle (some (end f)) = ⊥

  -- `is_runnable_bp`, for a blueprint that `operator|` can build.
  abbrev pub IsRunnable : List (Node V E) → Type 0
  IsRunnable nodes = IsEnd (get_node nodes 0) × IsShaped nodes

  IsMiddle-of_shaped :
      (nodes : List (Node V E)) (i : ℕ)
      → IsShaped nodes
      → suc i < length nodes
      → IsMiddle (get_node nodes (suc i))
  IsMiddle-of_shaped [] i s h = ground arith
  IsMiddle-of_shaped (b ∷ []) i s h = ground arith
  IsMiddle-of_shaped (b ∷ (calc n f ∷ others)) zero s h = ground arith
  IsMiddle-of_shaped (b ∷ (via d ∷ others)) zero s h = ground arith
  IsMiddle-of_shaped (b ∷ (async d a ∷ others)) zero s h = ground arith
  IsMiddle-of_shaped (calc m g ∷ (end f ∷ others)) zero s h = ground arith
  IsMiddle-of_shaped (via p ∷ (end f ∷ others)) zero s h = ground arith
  IsMiddle-of_shaped (async p a ∷ (end f ∷ others)) zero s h = ground arith
  IsMiddle-of_shaped (end g ∷ (end f ∷ others)) zero s h = ground arith
  IsMiddle-of_shaped (b ∷ (o ∷ others)) (suc i) (k, (f, s)) h =
      IsMiddle-of_shaped (o ∷ others) i s (ground arith)

  -- A flow whose next node is there, and whose receiver has been called when it is over.
  abbrev pub IsWithin : ℕ → Pc V E → ℕ → Type 0
  IsWithin l (ready i x) k = (i < l) × (k ≡ 0)
  IsWithin l (checked i x) k = (suc i < l) × (k ≡ 0)
  IsWithin l (created i d adaptor (not_created e)) k = ⊥
  IsWithin l (created i d adaptor not_submitted) k = (suc i < l) × (k ≡ 0)
  IsWithin l (created i d adaptor (completes r)) k = (suc i < l) × (k ≡ 0)
  IsWithin l (waiting i d adaptor r) k = (suc i < l) × (k ≡ 0)
  IsWithin l (posted executor i x) k = (i < l) × (k ≡ 0)
  IsWithin l (delivered x) k = k ≡ 1

  abbrev pub Goes : ℕ → Option (Runner V E) → Type 0
  Goes l none = ⊥
  Goes l (some t) = IsWithin l t.pc t.received

  if-Goes :
      (b : Bool) (l : ℕ) (o o' : Option (Runner V E))
      → Goes l o
      → Goes l o'
      → Goes l (if b then o else o')
  if-Goes true l o o' n n' = n
  if-Goes false l o o' n n' = n'

  pub dispatch_impl-Goes :
      (d : Dispatcher) (i : ℕ) (x : Result V E) (s : Runner V E) (l : ℕ)
      → i < l
      → s.received ≡ 0
      → Goes l (some (dispatch_impl d i x s))
  dispatch_impl-Goes d i x s l h k = elim (Bool-cases d.is_inline) [
    | inl y ↦ ground (arith, y)
    | inr n ↦ ground (arith, n)
  ]

  emplace_end-Goes :
      (b : Option (Node V E)) (x : Result V E) (s : Runner V E) (l : ℕ)
      → IsEnd b
      → s.received ≡ 0
      → Goes l (emplace_end b x s)
  emplace_end-Goes none x s l h k = h
  emplace_end-Goes (some (calc n f)) x s l h k = h
  emplace_end-Goes (some (via d)) x s l h k = h
  emplace_end-Goes (some (async d a)) x s l h k = h
  emplace_end-Goes (some (end f)) x s l h k = ground arith

  create-Goes :
      (d : Dispatcher) (i : ℕ) (adaptor : Result V E → Result V E) (a : Async V E) (s : Runner V E)
      (l : ℕ)
      → suc i < l
      → s.received ≡ 0
      → Goes l (some (create d i adaptor a s))
  create-Goes d i adaptor (not_created e) s l h k =
      dispatch_impl-Goes d i (error e) (record s { operations = s.operations + 1 }) l (ground arith)
        k
  create-Goes d i adaptor not_submitted s l h k = ground arith
  create-Goes d i adaptor (completes r) s l h k = ground arith

  dispatch-Goes :
      (w : Setting V E) (b : Option (Node V E)) (i : ℕ) (x : Result V E) (canceled : Bool)
      (s : Runner V E) (l : ℕ)
      → IsMiddle b
      → suc i < l
      → s.received ≡ 0
      → Goes l (dispatch w b i x canceled s)
  dispatch-Goes w none i x canceled s l m h k = m
  dispatch-Goes w (some (calc n f)) i x canceled s l m h k = ground arith
  dispatch-Goes w (some (via d)) i x canceled s l m h k =
      dispatch_impl-Goes d i x s l (ground arith) k
  dispatch-Goes w (some (async d a)) i x true s l m h k =
      dispatch_impl-Goes d i (error (w.cancel_error soft_cancel)) s l (ground arith) k
  dispatch-Goes w (some (async d a)) i x false s l m h k =
      create-Goes d i a (w.outcomes s.operations x) s l h k
  dispatch-Goes w (some (end f)) i x canceled s l m h k = m

  submit-Goes :
      (w : Setting V E) (d : Dispatcher) (i : ℕ) (adaptor : Result V E → Result V E) (a : Async V E)
      (s : Runner V E) (l : ℕ)
      → IsWithin l (created i d adaptor a) s.received
      → Goes l (submit w d i adaptor a s)
  submit-Goes w d i adaptor (not_created e) s l h = h
  submit-Goes w d i adaptor not_submitted s l (h, k) =
      dispatch_impl-Goes d i (error w.submission_failed) (count_call i s) l (ground arith) k
  submit-Goes w d i adaptor (completes r) s l h = ground arith

  release-Goes :
      (w : Setting V E) (d : Dispatcher) (i : ℕ) (adaptor : Result V E → Result V E) (a : Async V E)
      (x : Result V E) (s : Runner V E) (l : ℕ)
      → IsWithin l (created i d adaptor a) s.received
      → Goes l (some (dispatch_impl d i x s))
  release-Goes w d i adaptor (not_created e) x s l h = ground arith
  release-Goes w d i adaptor not_submitted x s l (h, k) =
      dispatch_impl-Goes d i x s l (ground arith) k
  release-Goes w d i adaptor (completes r) x s l (h, k) =
      dispatch_impl-Goes d i x s l (ground arith) k

  pub submit_or_release-Goes :
      (w : Setting V E) (d : Dispatcher) (i : ℕ) (adaptor : Result V E → Result V E) (a : Async V E)
      (c : Option CancelKind) (s : Runner V E) (l : ℕ)
      → IsWithin l (created i d adaptor a) s.received
      → Goes l (submit_or_release w d i adaptor a c s)
  submit_or_release-Goes w d i adaptor a none s l h = submit-Goes w d i adaptor a s l h
  submit_or_release-Goes w d i adaptor a (some kind) s l h =
      if-Goes (w.is_fast (i + 1)) l (submit w d i adaptor a s)
        (some (dispatch_impl d i (error (w.cancel_error kind)) s))
        (submit-Goes w d i adaptor a s l h)
        (release-Goes w d i adaptor a (error (w.cancel_error kind)) s l h)

  pub ready-Goes :
      (w : Setting V E) (i : ℕ) (x : Result V E) (s : Runner V E)
      → IsRunnable w.nodes
      → IsWithin (length w.nodes) (ready i x) s.received
      → Goes (length w.nodes) (advance_at w (ready i x) s)
  ready-Goes w zero x s (h, shape) (i<, k) =
      emplace_end-Goes (get_node w.nodes 0) x s (length w.nodes) h k
  ready-Goes w (suc i) x s (h, shape) (i<, k) =
      if-Goes (is_force_canceled s.cancelled) (length w.nodes)
        (run_end w (error (w.cancel_error hard_cancel)) s) (some (record s { pc = checked i x }))
        (emplace_end-Goes (get_node w.nodes 0) (error (w.cancel_error hard_cancel)) s
          (length w.nodes) h k)
        (i<, k)

  pub checked-Goes :
      (w : Setting V E) (i : ℕ) (x : Result V E) (s : Runner V E)
      → IsRunnable w.nodes
      → IsWithin (length w.nodes) (checked i x) s.received
      → Goes (length w.nodes) (advance_at w (checked i x) s)
  checked-Goes w i x s (h, shape) (i<, k) =
      if-Goes (is_soft_canceled s.cancelled) (length w.nodes)
        (dispatch w (get_node w.nodes (suc i)) i (error (w.cancel_error soft_cancel)) true s)
        (dispatch w (get_node w.nodes (suc i)) i x false s)
        (dispatch-Goes w (get_node w.nodes (suc i)) i (error (w.cancel_error soft_cancel)) true s
          (length w.nodes) (IsMiddle-of_shaped w.nodes i shape i<) i< k)
        (dispatch-Goes w (get_node w.nodes (suc i)) i x false s (length w.nodes)
          (IsMiddle-of_shaped w.nodes i shape i<) i< k)
