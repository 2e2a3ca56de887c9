-- ===== src/Flow/Runner/Outcome.antt =====
-- A flow that nobody cancels keeps what is still to come of it.
use flux_foundry.Prelude.{
  ℕ, zero, suc, ◌≡◌, refl, ◌∙◌, inl, inr, Option, none, some, Bool-cases, arith,
}
use flux_foundry.Flow.Controller.{CancelKind}
use flux_foundry.Flow.Blueprint.{Result, Dispatcher}
use flux_foundry.Flow.Blueprint.Fusion.{Async, Flow}
use flux_foundry.Flow.Runner.{
  Setting, Pc, ready, checked, created, waiting, posted, delivered, Runner, get_node, submit,
  advance_at, advance, execute_at, resume_at, Answers, cancel_at, Step, runs, executes, resumes,
  cancels, Steps, stays, moves, fast_dispatch, fast_advance_at, fast_advance, FastSteps, fast_stays,
  fast_runs, fast_executes, fast_resumes,
}
use flux_foundry.Flow.Runner.Ends.{step_uncancelled}
use flux_foundry.Flow.Runner.Leads.{
  future, Leads, emplace_end-Leads, fast_dispatch-Leads, dispatch-fast, submit-Leads,
}

module _ {V E : Type 0} where
  checked_advance :
      (w : Setting V E) (i : ℕ) (x : Result V E) (s : Runner V E)
      → s.cancelled ≡ none
      → advance_at w (checked i x) s ≡ fast_dispatch w (get_node w.nodes (suc i)) i x s
  checked_advance w i x s z = ground (arith, z, dispatch-fast w (get_node w.nodes (suc i)) i x s)

  created_advance :
      (w : Setting V E) (d : Dispatcher) (i : ℕ) (adaptor : Result V E → Result V E) (a : Async V E)
      (s : Runner V E)
      → s.cancelled ≡ none
      → advance_at w (created i d adaptor a) s ≡ submit w d i adaptor a s
  created_advance w d i adaptor a s z = ground (arith, z)

  Leads-along :
      (w : Setting V E) (c : Flow V E) (o o' : Option (Runner V E))
      → o ≡ o'
      → Leads w c o'
      → Leads w c o
  Leads-along w c o o' e h = rw e h

  advance_at-Leads :
      (w : Setting V E) (p : Pc V E) (s : Runner V E)
      → s.cancelled ≡ none
      → Leads w (future w p s) (advance_at w p s)
  advance_at-Leads w (ready zero x) s z = emplace_end-Leads w (get_node w.nodes 0) x s
  advance_at-Leads w (ready (suc i) x) s z = ground (arith, z)
  advance_at-Leads w (checked i x) s z =
      Leads-along w (future w (checked i x) s) (advance_at w (checked i x) s)
        (fast_dispatch w (get_node w.nodes (suc i)) i x s) (checked_advance w i x s z)
        (fast_dispatch-Leads w (get_node w.nodes (suc i)) i x s)
  advance_at-Leads w (created i d adaptor a) s z =
      Leads-along w (future w (created i d adaptor a) s) (advance_at w (created i d adaptor a) s)
        (submit w d i adaptor a s) (created_advance w d i adaptor a s z)
        (submit-Leads w d i adaptor a s)
  advance_at-Leads w (waiting i d adaptor r) s z = tt
  advance_at-Leads w (posted executor i x) s z = tt
  advance_at-Leads w (delivered x) s z = tt

  fast_advance_at-Leads :
      (w : Setting V E) (p : Pc V E) (s : Runner V E)
      → Leads w (future w p s) (fast_advance_at w p s)
  fast_advance_at-Leads w (ready zero x) s = emplace_end-Leads w (get_node w.nodes 0) x s
  fast_advance_at-Leads w (ready (suc i) x) s =
      fast_dispatch-Leads w (get_node w.nodes (suc i)) i x s
  fast_advance_at-Leads w (checked i x) s = tt
  fast_advance_at-Leads w (created i d adaptor a) s = submit-Leads w d i adaptor a s
  fast_advance_at-Leads w (waiting i d adaptor r) s = tt
  fast_advance_at-Leads w (posted executor i x) s = tt
  fast_advance_at-Leads w (delivered x) s = tt

  execute_at-Leads :
      (w : Setting V E) (p : Pc V E) (s : Runner V E) → Leads w (future w p s) (execute_at p s)
  execute_at-Leads w (ready i x) s = tt
  execute_at-Leads w (checked i x) s = tt
  execute_at-Leads w (created i d adaptor a) s = tt
  execute_at-Leads w (waiting i d adaptor r) s = tt
  execute_at-Leads w (posted executor i x) s = refl
  execute_at-Leads w (delivered x) s = tt

  resume_at-Leads :
      (w : Setting V E) (p : Pc V E) (r : Result V E) (s : Runner V E)
      → Answers p none r
      → Leads w (future w p s) (resume_at p r s)
  resume_at-Leads w (ready i x) r s a = tt
  resume_at-Leads w (checked i x) r s a = tt
  resume_at-Leads w (created i d adaptor x) r s a = tt
  resume_at-Leads w (waiting i d adaptor r') r s a = elim (Bool-cases d.is_inline) [
    | inl y ↦ ground (arith, y, a)
    | inr n ↦ ground (arith, n, a)
  ]
  resume_at-Leads w (posted executor i x) r s a = tt
  resume_at-Leads w (delivered x) r s a = tt

  Leads-to :
      (w : Setting V E) (c : Flow V E) (o : Option (Runner V E)) (t : Runner V E)
      → Leads w c o
      → o ≡ some t
      → future w t.pc t ≡ c
  Leads-to w c none t h e = ground arith
  Leads-to w c (some t') t h e = ground (arith, h, e)

  Answers-uncancelled :
      (p : Pc V E) (c : Option CancelKind) (r : Result V E)
      → c ≡ none
      → Answers p c r
      → Answers p none r
  Answers-uncancelled p none r z a = a
  Answers-uncancelled p (some k) r z a = ground arith

  cancel_at_unset :
      (c : Option CancelKind) (kind : CancelKind) (s t : Runner V E)
      → cancel_at c kind s ≡ some t
      → t.cancelled ≡ none
      → ⊥
  cancel_at_unset none kind s t e z = ground (arith, e, z)
  cancel_at_unset (some k) kind s t e z = ground (arith, e)

  step_future :
      (w : Setting V E) (s t : Runner V E)
      → t.cancelled ≡ none
      → Step w s t
      → future w t.pc t ≡ future w s.pc s
  unfolding advance
  step_future w s t z (runs e) =
      Leads-to w (future w s.pc s) (advance w s) t
        (advance_at-Leads w s.pc s (step_uncancelled w s t (runs e) z)) e
  step_future w s t z (executes e) =
      Leads-to w (future w s.pc s) (execute_at s.pc s) t (execute_at-Leads w s.pc s) e
  step_future w s t z (resumes r a e) =
      Leads-to w (future w s.pc s) (resume_at s.pc r s) t
        (resume_at-Leads w s.pc r s
          (Answers-uncancelled s.pc s.cancelled r (step_uncancelled w s t (resumes r a e) z) a))
        e
  step_future w s t z (cancels kind e) = absurd (cancel_at_unset s.cancelled kind s t e z)

  Steps-uncancelled :
      (w : Setting V E) (n : ℕ) (s u : Runner V E)
      → Steps w n s u
      → u.cancelled ≡ none
      → s.cancelled ≡ none
  Steps-uncancelled w zero s u stays z = z
  Steps-uncancelled w (suc n) s u (moves {t = t} x xs) z =
      step_uncancelled w s t x (Steps-uncancelled w n t u xs z)

  pub Steps-future :
      (w : Setting V E) (n : ℕ) (s u : Runner V E)
      → u.cancelled ≡ none
      → Steps w n s u
      → future w u.pc u ≡ future w s.pc s
  Steps-future w zero s u z stays = refl
  Steps-future w (suc n) s u z (moves {t = t} x xs) =
      Steps-future w n t u z xs ∙ step_future w s t (Steps-uncancelled w n t u xs z) x

  pub fast_future :
      (w : Setting V E) (s u : Runner V E) → FastSteps w s u → future w u.pc u ≡ future w s.pc s
  unfolding fast_advance
  fast_future w s u fast_stays = refl
  fast_future w s u (fast_runs {t = t} e xs) =
      fast_future w t u xs
      ∙ Leads-to w (future w s.pc s) (fast_advance w s) t (fast_advance_at-Leads w s.pc s) e
  fast_future w s u (fast_executes {t = t} e xs) =
      fast_future w t u xs
      ∙ Leads-to w (future w s.pc s) (execute_at s.pc s) t (execute_at-Leads w s.pc s) e
  fast_future w s u (fast_resumes {t = t} r a e xs) =
      fast_future w t u xs
      ∙ Leads-to w (future w s.pc s) (resume_at s.pc r s) t (resume_at-Leads w s.pc r s a) e
