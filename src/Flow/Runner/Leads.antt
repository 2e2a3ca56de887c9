-- ===== src/Flow/Runner/Leads.antt =====
-- What one dispatch does to what is still to come of a flow.
use flux_foundry.Prelude.{
  ℕ, zero, suc, ◌+◌, ◌≡◌, refl, ◌∙◌, ap, inl, inr, false, Option, none, some, List, [], ◌∷◌,
  Bool-cases, length, arith,
}
use flux_foundry.Flow.Blueprint.{Result, error, Dispatcher, Node, calc, via, async, end}
use flux_foundry.Flow.Blueprint.Fusion.{
  Place, on, Async, not_created, not_submitted, completes, Flow, hop, resume_place, complete, pass,
  eval,
}
use flux_foundry.Flow.Runner.{
  Setting, Pc, ready, checked, created, waiting, posted, delivered, Runner, get_node, dispatch_impl,
  count_call, emplace_end, create, dispatch, submit, fast_dispatch,
}

module _ {V E : Type 0} where
  abbrev pub flow_of : Result V E → Place → ℕ → Flow V E
  flow_of x place k = record { result = x; place = place; operations = k }

  abbrev pub pass_at : Setting V E → Option (Node V E) → Flow V E → Flow V E
  pass_at w none c = c
  pass_at w (some b) c = pass w.submission_failed w.outcomes b c

  -- Nodes `i`, `i - 1`, …, `0` of a list.
  abbrev pub eval_from : Setting V E → List (Node V E) → ℕ → Flow V E → Flow V E
  eval_from w nodes zero c = pass_at w (get_node nodes 0) c
  eval_from w nodes (suc i) c = eval_from w nodes i (pass_at w (get_node nodes (suc i)) c)

  eval_from-cons :
      (w : Setting V E) (b : Node V E) (others : List (Node V E)) (i : ℕ) (c : Flow V E)
      → eval_from w (b ∷ others) (suc i) c
        ≡ pass w.submission_failed w.outcomes b (eval_from w others i c)
  eval_from-cons w b others zero c = refl
  eval_from-cons w b others (suc i) c =
      eval_from-cons w b others i (pass_at w (get_node others (suc i)) c)

  pub eval_from_lem :
      (w : Setting V E) (b : Node V E) (others : List (Node V E)) (c : Flow V E)
      → eval_from w (b ∷ others) (length others) c
        ≡ eval w.submission_failed w.outcomes (b ∷ others) c
  unfolding eval
  eval_from_lem w b [] c = refl
  eval_from_lem w b (o ∷ others) c =
      eval_from-cons w b (o ∷ others) (length others) c
      ∙ ap (pass w.submission_failed w.outcomes b) (eval_from_lem w o others c)

  abbrev pub completed :
      Setting V E → Dispatcher → (Result V E → Result V E) → Async V E → Place → ℕ → Flow V E
  completed w d adaptor (not_created e) place k = flow_of (error e) (hop d place) k
  completed w d adaptor not_submitted place k = flow_of (error w.submission_failed) (hop d place) k
  completed w d adaptor (completes r) place k = flow_of (adaptor r) (resume_place d) k

  -- What is still to come of a flow.
  abbrev pub future : Setting V E → Pc V E → Runner V E → Flow V E
  future w (ready i x) s = eval_from w w.nodes i (flow_of x s.place s.operations)
  future w (checked i x) s = eval_from w w.nodes (suc i) (flow_of x s.place s.operations)
  future w (created i d adaptor a) s =
      eval_from w w.nodes i (completed w d adaptor a s.place s.operations)
  future w (waiting i d adaptor r) s =
      eval_from w w.nodes i (flow_of (adaptor r) (resume_place d) s.operations)
  future w (posted executor i x) s = eval_from w w.nodes i (flow_of x (on executor) s.operations)
  future w (delivered x) s = flow_of x s.place s.operations

  -- A step keeps it.
  abbrev pub Leads : Setting V E → Flow V E → Option (Runner V E) → Type 0
  Leads w c none = Unit {0}
  Leads w c (some t) = future w t.pc t ≡ c

  dispatch_impl-Leads :
      (w : Setting V E) (d : Dispatcher) (i : ℕ) (x : Result V E) (s : Runner V E)
      → Leads w
          (eval_from w w.nodes i (flow_of x (hop d s.place) s.operations))
          (some (dispatch_impl d i x s))
  dispatch_impl-Leads w d i x s = elim (Bool-cases d.is_inline) [
    | inl y ↦ ground (arith, y)
    | inr n ↦ ground (arith, n)
  ]

  pub emplace_end-Leads :
      (w : Setting V E) (b : Option (Node V E)) (x : Result V E) (s : Runner V E)
      → Leads w (pass_at w b (flow_of x s.place s.operations)) (emplace_end b x s)
  emplace_end-Leads w none x s = tt
  emplace_end-Leads w (some (calc n f)) x s = tt
  emplace_end-Leads w (some (via d)) x s = tt
  emplace_end-Leads w (some (async d a)) x s = tt
  emplace_end-Leads w (some (end f)) x s = refl

  create-Leads :
      (w : Setting V E) (d : Dispatcher) (i : ℕ) (adaptor : Result V E → Result V E) (a : Async V E)
      (s : Runner V E)
      → Leads w
          (eval_from w w.nodes i (completed w d adaptor a s.place (s.operations + 1)))
          (some (create d i adaptor a s))
  create-Leads w d i adaptor (not_created e) s =
      dispatch_impl-Leads w d i (error e) (record s { operations = s.operations + 1 })
  create-Leads w d i adaptor not_submitted s = refl
  create-Leads w d i adaptor (completes r) s = refl

  complete_lem :
      (w : Setting V E) (d : Dispatcher) (adaptor : Result V E → Result V E) (a : Async V E)
      (c : Flow V E)
      → completed w d adaptor a c.place (c.operations + 1)
        ≡ complete w.submission_failed w.outcomes d adaptor c a
  complete_lem w d adaptor (not_created e) c = refl
  complete_lem w d adaptor not_submitted c = refl
  complete_lem w d adaptor (completes r) c = refl

  pub fast_dispatch-Leads :
      (w : Setting V E) (b : Option (Node V E)) (i : ℕ) (x : Result V E) (s : Runner V E)
      → Leads w
          (eval_from w w.nodes i (pass_at w b (flow_of x s.place s.operations)))
          (fast_dispatch w b i x s)
  fast_dispatch-Leads w none i x s = tt
  fast_dispatch-Leads w (some (calc n f)) i x s = refl
  fast_dispatch-Leads w (some (via d)) i x s = dispatch_impl-Leads w d i x s
  fast_dispatch-Leads w (some (async d a)) i x s =
      create-Leads w d i a (w.outcomes s.operations x) s
      ∙ ap (eval_from w w.nodes i)
          (complete_lem w d a (w.outcomes s.operations x) (flow_of x s.place s.operations))
  fast_dispatch-Leads w (some (end f)) i x s = tt

  -- The two runners dispatch a flow that is not cancelled alike.
  pub dispatch-fast :
      (w : Setting V E) (b : Option (Node V E)) (i : ℕ) (x : Result V E) (s : Runner V E)
      → dispatch w b i x false s ≡ fast_dispatch w b i x s
  dispatch-fast w none i x s = refl
  dispatch-fast w (some (calc n f)) i x s = refl
  dispatch-fast w (some (via d)) i x s = refl
  dispatch-fast w (some (async d a)) i x s = refl
  dispatch-fast w (some (end f)) i x s = refl

  pub submit-Leads :
      (w : Setting V E) (d : Dispatcher) (i : ℕ) (adaptor : Result V E → Result V E) (a : Async V E)
      (s : Runner V E)
      → Leads w
          (eval_from w w.nodes i (completed w d adaptor a s.place s.operations))
          (submit w d i adaptor a s)
  submit-Leads w d i adaptor (not_created e) s = tt
  submit-Leads w d i adaptor not_submitted s =
      dispatch_impl-Leads w d i (error w.submission_failed) (count_call i s)
  submit-Leads w d i adaptor (completes r) s = refl
