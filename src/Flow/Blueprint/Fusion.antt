-- ===== src/Flow/Blueprint/Fusion.antt =====
-- Merging nodes does not change what a flow computes, nor where its callables run.
use flux_foundry.Prelude.{
  ℕ, ◌+◌, ◌≡◌, ◌∙◌, ap, inl, inr, false, some, List, [], ◌∷◌, ◌==◌, if◌then◌else◌, Bool-cases,
  Option-cases, arith,
}
use flux_foundry.Flow.Blueprint.{
  Result, error, Dispatcher, Node, calc, via, async, end, max_zip_n, append, append_all,
}

-- Where a callable runs: on the thread that started the flow, on an executor, or on the thread that
-- resumes an awaitable.
pub data Place : Type 0 where
  caller : Place
  on : (executor : ℕ) → Place
  backend : Place

-- What becomes of an awaitable: its creation fails, its submission fails, or it is resumed.
pub data Async (V E : Type 0) : Type 0 where
  not_created : E → Async V E
  not_submitted : Async V E
  completes : Result V E → Async V E

-- A flow between two nodes; `operations` counts the async nodes that it has passed.
pub record Flow (V E : Type 0) : Type 0 where
  pub result : Result V E
  pub place : Place
  pub operations : ℕ

abbrev pub hop : Dispatcher → Place → Place
hop d p = if d.is_inline then p else on d.executor

abbrev pub resume_place : Dispatcher → Place
resume_place d = if d.is_inline then backend else on d.executor

module _ {V E : Type 0} (submission_failed : E) (outcomes : ℕ → Result V E → Async V E) where
  abbrev pub complete : Dispatcher → (Result V E → Result V E) → Flow V E → Async V E → Flow V E
  complete d adaptor c (not_created e) = record {
    result = error e;
    place = hop d c.place;
    operations = c.operations + 1;
  }
  complete d adaptor c not_submitted = record {
    result = error submission_failed;
    place = hop d c.place;
    operations = c.operations + 1;
  }
  complete d adaptor c (completes r) = record {
    result = adaptor r;
    place = resume_place d;
    operations = c.operations + 1;
  }

  -- What one node does to a flow that is not cancelled.
  abbrev pub pass : Node V E → Flow V E → Flow V E
  pass (calc n f) c = record c { result = f c.result }
  pass (via d) c = record c { place = hop d c.place }
  pass (async d adaptor) c = complete d adaptor c (outcomes c.operations c.result)
  pass (end f) c = record c { result = f c.result }

  -- The stored nodes, the oldest first; and a list of nodes as the user wrote it.
  unfoldable pub eval : List (Node V E) → Flow V E → Flow V E
  eval [] c = c
  eval (b ∷ others) c = pass b (eval others c)

  unfoldable pub eval_written : List (Node V E) → Flow V E → Flow V E
  eval_written [] c = c
  eval_written (b ∷ bs) c = eval_written bs (pass b c)

-- A `via` leads away from its thread, so that it hides the one before it.
abbrev pub Leaves : {V E : Type 0} → Node V E → Type 0
Leaves (via d) = d.is_inline ≡ false
Leaves b = Unit {0}

abbrev pub AllLeave : {V E : Type 0} → List (Node V E) → Type 0
AllLeave [] = Unit {0}
AllLeave (b ∷ bs) = Leaves b × AllLeave bs

module _ {V E : Type 0} (submission_failed : E) (outcomes : ℕ → Result V E → Async V E) where
  eval-append :
      (bp : List (Node V E)) (b : Node V E) (bp' : List (Node V E)) (c : Flow V E)
      → Leaves b
      → append bp b ≡ some bp'
      → eval submission_failed outcomes bp' c
        ≡ pass submission_failed outcomes b (eval submission_failed outcomes bp c)
  unfolding append eval
  eval-append [] b bp' c l e = ground arith
  eval-append (end f ∷ others) b bp' c l e = ground arith
  eval-append (calc n f ∷ others) (calc m g) bp' c l e = elim (Bool-cases (m == 1)) [
    | inl m1 ↦ elim (Bool-cases (n == max_zip_n)) [
      | inl n1 ↦ ground (arith, e, m1, n1)
      | inr n0 ↦ ground (arith, e, m1, n0)
    ]
    | inr m0 ↦ ground (arith, e, m0)
  ]
  eval-append (calc n f ∷ others) (via q) bp' c l e = ground arith
  eval-append (calc n f ∷ others) (async d a) bp' c l e = ground arith
  eval-append (calc n f ∷ others) (end g) bp' c l e = ground arith
  eval-append (via p ∷ others) (via q) bp' c l e = ground arith
  eval-append (via p ∷ others) (calc m g) bp' c l e = ground arith
  eval-append (via p ∷ others) (async d a) bp' c l e = ground arith
  eval-append (via p ∷ others) (end g) bp' c l e = ground arith
  eval-append (async d a ∷ others) (via q) bp' c l e = ground arith
  eval-append (async d a ∷ others) (calc m g) bp' c l e = ground arith
  eval-append (async d a ∷ others) (async d' a') bp' c l e = ground arith
  eval-append (async d a ∷ others) (end g) bp' c l e = ground arith

  -- Nodes that are appended to a blueprint one after the other do to a flow, in the order in which
  -- they were written, what each does on its own, whatever `operator|` merges, if no `via` node has
  -- an inline executor.
  pub eval-append_all :
      (bp bs bp' : List (Node V E)) (c : Flow V E)
      → AllLeave bs
      → append_all bp bs ≡ some bp'
      → eval submission_failed outcomes bp' c
        ≡ eval_written submission_failed outcomes bs (eval submission_failed outcomes bp c)
  unfolding append_all eval_written
  eval-append_all bp [] bp' c l e = ground arith
  eval-append_all bp (b ∷ bs) bp' c (lb, ls) e = elim (Option-cases (append bp b)) [
    | inl same ↦ ground (arith, e, same)
    | inr (m, same) ↦
        eval-append_all m bs bp' c ls (ground (arith, e, same))
        ∙ ap (eval_written submission_failed outcomes bs) (eval-append bp b m c lb same)
  ]
