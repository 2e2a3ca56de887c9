-- ===== src/Flow/Runner/Delivers.antt =====
-- What arrives at the receiver of a flow that nobody cancels.
use flux_foundry.Prelude.{
  ℕ, ◌-◌, ◌<◌, ◌≡◌, refl, sym, ◌∙◌, ap, Bool, true, false, none, some, List, [], ◌∷◌, length, arith,
}
use flux_foundry.Flow.Blueprint.{Result, Node, make_blueprint, append_all}
use flux_foundry.Flow.Blueprint.Fusion.{caller, Flow, eval, eval_written, AllLeave, eval-append_all}
use flux_foundry.Flow.Runner.{Setting, Pc, delivered, Runner, start, Steps, FastSteps}
use flux_foundry.Flow.Runner.Leads.{flow_of, eval_from, eval_from_lem, future}
use flux_foundry.Flow.Runner.Outcome.{Steps-future, fast_future}

module _ {V E : Type 0} where
  delivered_future :
      (w : Setting V E) (p : Pc V E) (s : Runner V E) (y : Result V E)
      → p ≡ delivered y
      → future w p s ≡ flow_of y s.place s.operations
  delivered_future w p s y e = rw e refl

  eval_all :
      (w : Setting V E) (nodes : List (Node V E)) (c : Flow V E)
      → 0 < length nodes
      → eval_from w nodes (length nodes - 1) c ≡ eval w.submission_failed w.outcomes nodes c
  eval_all w [] c h = ground arith
  eval_all w (b ∷ others) c h = ground (arith, eval_from_lem w b others c)

  started_future :
      (w : Setting V E) (b c : Bool) (x : Result V E) (s : Runner V E)
      → 0 < length w.nodes
      → start w b c x ≡ some s
      → future w s.pc s ≡ eval w.submission_failed w.outcomes w.nodes (flow_of x caller 0)
  unfolding start
  started_future w true true x s n e = ground (arith, e, eval_all w w.nodes (flow_of x caller 0) n)
  started_future w true false x s n e = ground (arith, e)
  started_future w false c x s n e = ground (arith, e)

  run_delivers :
      (w : Setting V E) (b c : Bool) (x y : Result V E) (s t : Runner V E) (n : ℕ)
      → 0 < length w.nodes
      → start w b c x ≡ some s
      → Steps w n s t
      → t.cancelled ≡ none
      → t.pc ≡ delivered y
      → flow_of y t.place t.operations
        ≡ eval w.submission_failed w.outcomes w.nodes (flow_of x caller 0)
  run_delivers w b c x y s t n some_node e xs z d =
      sym (delivered_future w t.pc t y d)
      ∙ Steps-future w n s t z xs
      ∙ started_future w b c x s some_node e

  fast_delivers :
      (w : Setting V E) (b c : Bool) (x y : Result V E) (s t : Runner V E)
      → 0 < length w.nodes
      → start w b c x ≡ some s
      → FastSteps w s t
      → t.pc ≡ delivered y
      → flow_of y t.place t.operations
        ≡ eval w.submission_failed w.outcomes w.nodes (flow_of x caller 0)
  fast_delivers w b c x y s t some_node e xs d =
      sym (delivered_future w t.pc t y d)
      ∙ fast_future w s t xs
      ∙ started_future w b c x s some_node e

  -- `flow_fast_runner` delivers the same result at the same place after as many awaitables as
  -- `flow_runner`, from the same start, when the flow is not cancelled.
  pub fast_runs_alike :
      (w : Setting V E) (b c : Bool) (x y z : Result V E) (s t u : Runner V E) (n : ℕ)
      → 0 < length w.nodes
      → start w b c x ≡ some s
      → Steps w n s t
      → t.cancelled ≡ none
      → t.pc ≡ delivered y
      → FastSteps w s u
      → u.pc ≡ delivered z
      → (y ≡ z) × ((t.place ≡ u.place) × (t.operations ≡ u.operations))
  fast_runs_alike w b c x y z s t u n some_node e xs uncancelled d ys d' =
      (ap (λ f. f.result) same, (ap (λ f. f.place) same, ap (λ f. f.operations) same))
    where
      same : flow_of y t.place t.operations ≡ flow_of z u.place u.operations
      same =
          run_delivers w b c x y s t n some_node e xs uncancelled d
          ∙ sym (fast_delivers w b c x z s u some_node e ys d')

  fused :
      (w : Setting V E) (bs : List (Node V E)) (x : Result V E)
      → AllLeave bs
      → append_all make_blueprint bs ≡ some w.nodes
      → eval w.submission_failed w.outcomes w.nodes (flow_of x caller 0)
        ≡ eval_written w.submission_failed w.outcomes bs (flow_of x caller 0)
  unfolding eval
  fused w bs x leave built =
      eval-append_all w.submission_failed w.outcomes make_blueprint bs w.nodes (flow_of x caller 0)
        leave built

  -- A flow that is not cancelled delivers what the nodes compute, each on its own and in the order
  -- in which they were written, and the end node runs where they lead to, if no `via` node has an
  -- inline executor.
  pub delivers_as_written :
      (w : Setting V E) (bs : List (Node V E)) (b c : Bool) (x y : Result V E) (s t : Runner V E)
      (n : ℕ)
      → append_all make_blueprint bs ≡ some w.nodes
      → AllLeave bs
      → 0 < length w.nodes
      → start w b c x ≡ some s
      → Steps w n s t
      → t.cancelled ≡ none
      → t.pc ≡ delivered y
      → flow_of y t.place t.operations
        ≡ eval_written w.submission_failed w.outcomes bs (flow_of x caller 0)
  delivers_as_written w bs b c x y s t n built leave some_node e xs z d =
      run_delivers w b c x y s t n some_node e xs z d ∙ fused w bs x leave built
