-- ===== src/Flow/WhenAll/Submits.antt =====
-- The accesses of the submitting thread of a `when_all` keep its invariant.
use flux_foundry.Prelude.{
  ℕ, ◌+◌, ◌/◌, ◌^◌, ◌≤◌, ◌<◌, Bool, true, false, ◌==◌, ◌&&◌, if◌then◌else◌, ◌∷◌, ◌≡◌, ◌≢◌, length,
  update, tally, tally-update, tally-le, arith, add64, sub64,
}
use flux_foundry.Flow.WhenAll.{
  Kind, Outcome, unlaunched, running, Submitter, cancel_upto, outcome, created, launching, starting,
  dropping, withdrawing, marking, sealing, checking, resuming, returned, with_failure, on_throw,
  withdrawn, with_success,
}
use flux_foundry.Flow.WhenAll.System.{System}
use flux_foundry.Flow.WhenAll.Inv.{
  Inv, at_work, entitled, holds, entitled_submitter, is_sealed, frontier, launched, Flags,
  SubmitterAgrees, Bounded,
}

module _ {n : ℕ} {s : System} (inv : Inv n s) (small : n < 2 ^ 60) where
  at_work_bound : tally at_work n s.branch ≤ n
  at_work_bound = tally-le at_work n s.branch (λ b. ground arith)

  -- An access that changes only the word, the controllers and the submitter.
  moved :
      (fired : ℕ) (controllers : ℕ → Bool) (c : Submitter)
      → fired / 4 ≡ tally at_work n s.branch + holds c
      → Flags c fired
      → Bounded n c
      → ((i : ℕ) → frontier n c ≤ i → s.branch i ≡ unlaunched)
      → ((i : ℕ) → i < launched n c → s.branch i ≢ unlaunched)
      → length s.resumed + tally entitled n s.branch + entitled_submitter c
        ≡ (if is_sealed c && (fired / 4 == 0) then 1 else 0)
      → SubmitterAgrees n s.state.failed c
      → Inv n (record s {
        state = record s.state { fired = fired; controllers = controllers };
        submitter = c;
      })
  moved fired controllers c count flags bounded ahead behind one_right agrees = record {
    count = count;
    flags = flags;
    bounded = bounded;
    ahead = ahead;
    behind = behind;
    one_right = one_right;
    noted = inv.noted;
    stored = inv.stored;
    first = inv.first;
    branch_agrees = inv.branch_agrees;
    submitter_agrees = agrees;
    resumed_agree = inv.resumed_agree;
  }

  pub created-Inv :
      (ok : Bool)
      → s.submitter ≡ created
      → Inv n (record s { submitter = if ok then launching 0 else returned false })
  created-Inv ok e =
      moved s.state.fired s.state.controllers (if ok then launching 0 else returned false)
        (ground (arith, inv.count)) (ground (arith, inv.flags)) (ground arith)
        (λ i h. ground (arith, inv.ahead i)) (λ i h. ground (arith, inv.behind i))
        (ground (arith, inv.one_right)) (ground arith)

  pub launching-Inv :
      (k : ℕ)
      → s.submitter ≡ launching k
      → k < n
      → Inv n (record s {
        state = record s.state { fired = add64 s.state.fired 4 };
        submitter = starting k;
      })
  launching-Inv k e lt =
      moved (add64 s.state.fired 4) s.state.controllers (starting k)
        (ground (arith, inv.count, inv.flags, at_work_bound))
        (ground (arith, inv.flags, inv.count, at_work_bound)) (ground arith)
        (λ i h. ground (arith, inv.ahead i)) (λ i h. ground (arith, inv.behind i))
        (ground (arith, inv.one_right)) (ground arith)

  pub launched_all-Inv :
      (k : ℕ) → s.submitter ≡ launching k → n ≤ k → Inv n (record s { submitter = sealing })
  launched_all-Inv k e ge =
      moved s.state.fired s.state.controllers sealing (ground (arith, inv.count))
        (ground (arith, inv.flags)) (ground arith) (λ i h. ground (arith, inv.ahead i, inv.bounded))
        (λ i h. ground (arith, inv.behind i)) (ground (arith, inv.one_right)) (ground arith)

  pub throwing-Inv :
      (k : ℕ) (kind : Kind)
      → s.submitter ≡ starting k
      → Inv n (record s { submitter = on_throw kind k })
  throwing-Inv k kind e =
      moved s.state.fired s.state.controllers (on_throw kind k) (ground (arith, inv.count))
        (ground (arith, inv.flags)) (ground arith) (λ i h. ground (arith, inv.ahead i, inv.bounded))
        (λ i h. ground (arith, inv.behind i)) (ground (arith, inv.one_right)) (ground arith)

  pub dropping-Inv :
      (k : ℕ)
      → s.submitter ≡ dropping k
      → Inv n (record s {
        state = record s.state { controllers = cancel_upto k s.state.controllers };
        submitter = withdrawing;
      })
  dropping-Inv k e =
      moved s.state.fired (cancel_upto k s.state.controllers) withdrawing
        (ground (arith, inv.count)) (ground (arith, inv.flags)) (ground arith)
        (λ i h. ground (arith, inv.ahead i, inv.bounded)) (λ i h. ground (arith, inv.behind i))
        (ground (arith, inv.one_right)) (ground arith)

  pub withdrawing-Inv :
      (kind : Kind)
      → s.submitter ≡ withdrawing
      → Inv n (record s {
        state = record s.state { fired = sub64 s.state.fired 4 };
        submitter = withdrawn kind;
      })
  withdrawing-Inv kind e =
      moved (sub64 s.state.fired 4) s.state.controllers (withdrawn kind)
        (ground (arith, inv.count, inv.flags, at_work_bound))
        (ground (arith, inv.flags, inv.count, at_work_bound)) (ground arith)
        (λ i h. ground (arith, inv.ahead i, inv.bounded)) (λ i h. ground (arith, inv.behind i))
        (ground (arith, inv.one_right)) (ground arith)

  pub marking-Inv :
      s.submitter ≡ marking
      → Inv n (record s {
        state = record s.state { fired = with_failure s.state.fired };
        submitter = returned false;
      })
  marking-Inv e =
      moved (with_failure s.state.fired) s.state.controllers (returned false)
        (ground (arith, inv.count, inv.flags, at_work_bound))
        (ground (arith, inv.flags, inv.count, at_work_bound)) (ground arith)
        (λ i h. ground (arith, inv.ahead i, inv.bounded)) (λ i h. ground (arith, inv.behind i))
        (ground (arith, inv.one_right)) (ground arith)

  pub sealing-Inv :
      s.submitter ≡ sealing
      → Inv n (record s {
        state = record s.state { fired = with_success s.state.fired };
        submitter = if s.state.fired == 0 then checking else returned true;
      })
  sealing-Inv e =
      moved (with_success s.state.fired) s.state.controllers
        (if s.state.fired == 0 then checking else returned true)
        (ground (arith, inv.count, inv.flags, at_work_bound))
        (ground (arith, inv.flags, inv.count, at_work_bound)) (ground arith)
        (λ i h. ground (arith, inv.ahead i, inv.bounded)) (λ i h. ground (arith, inv.behind i))
        (ground (arith, inv.one_right, inv.flags)) (ground arith)

  pub checking-Inv :
      s.submitter ≡ checking → Inv n (record s { submitter = resuming (outcome n s.state) })
  checking-Inv e =
      moved s.state.fired s.state.controllers (resuming (outcome n s.state))
        (ground (arith, inv.count)) (ground (arith, inv.flags)) (ground arith)
        (λ i h. ground (arith, inv.ahead i, inv.bounded)) (λ i h. ground (arith, inv.behind i))
        (ground (arith, inv.one_right)) (ground (arith, inv.first))

  pub cancels-Inv :
      (controllers : ℕ → Bool)
      → Inv n (record s { state = record s.state { controllers = controllers } })
  cancels-Inv controllers =
      moved s.state.fired controllers s.submitter inv.count inv.flags inv.bounded inv.ahead
        inv.behind inv.one_right inv.submitter_agrees

  pub resuming-Inv :
      (o : Outcome)
      → s.submitter ≡ resuming o
      → Inv n (record s { submitter = returned true; resumed = o ∷ s.resumed })
  resuming-Inv o e = record {
    count = ground (arith, inv.count);
    flags = ground (arith, inv.flags);
    bounded = tt;
    ahead = λ i h. ground (arith, inv.ahead i);
    behind = λ i h. ground (arith, inv.behind i);
    one_right = ground (arith, inv.one_right);
    noted = inv.noted;
    stored = inv.stored;
    first = inv.first;
    branch_agrees = inv.branch_agrees;
    submitter_agrees = tt;
    resumed_agree = (ground (arith, inv.submitter_agrees), inv.resumed_agree);
  }

  -- The branch of a runner that starts was not launched, and it takes over the submitter's part.
  pub started-Inv :
      (k : ℕ)
      → s.submitter ≡ starting k
      → Inv n (record s { submitter = launching (k + 1); branch = update s.branch k running })
  started-Inv k e = record {
    count = ground (arith, inv.count, tally-update at_work n s.branch k running bound, before);
    flags = ground (arith, inv.flags);
    bounded = ground (arith, inv.bounded);
    ahead = λ i h. ground (arith, inv.ahead i);
    behind = λ i h. ground (arith, inv.behind i);
    one_right =
        ground (arith, inv.one_right, tally-update entitled n s.branch k running bound, before);
    noted = λ i h. ground (arith, inv.noted i);
    stored = λ i. ground (arith, inv.stored i);
    first = ground (arith, inv.first, before);
    branch_agrees = λ i. ground (arith, inv.branch_agrees i);
    submitter_agrees = tt;
    resumed_agree = inv.resumed_agree;
  }
    where
      bound : k < n
      bound = ground (arith, inv.bounded)

      before : s.branch k ≡ unlaunched
      before = ground (arith, inv.ahead k)
