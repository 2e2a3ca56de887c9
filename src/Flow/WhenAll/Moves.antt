-- ===== src/Flow/WhenAll/Moves.antt =====
-- The accesses of the delegates of a `when_all` keep its invariant.
use mathlib.Core.Path.{fun_ext}
use flux_foundry.Prelude.{
  ℕ, ◌^◌, ◌≤◌, ◌<◌, Bool, true, ◌==◌, if◌then◌else◌, List, [], ◌∷◌, ◌≡◌, ◌≢◌, ◌⊎◌, inl, inr, length,
  update, tally, tally-update, weight-le-tally, tally-le, Bool-cases, arith, sub64,
}
use flux_foundry.Flow.WhenAll.{
  Outcome, Branch, unlaunched, running, emplacing, canceling, noting, counting, last, delivering,
  finished, cancel_upto, outcome,
}
use flux_foundry.Flow.WhenAll.System.{System}
use flux_foundry.Flow.WhenAll.Inv.{
  Inv, at_work, entitled, entitled_submitter, frontier, has_noted, First, BranchAgrees,
  SubmitterAgrees, AllAgree,
}

AllAgree-of_none : (n failed : ℕ) (xs : List Outcome) → length xs ≡ 0 → AllAgree n failed xs
AllAgree-of_none n failed [] h = tt
AllAgree-of_none n failed (x ∷ xs) h = absurd (omega arith)

module _ {n : ℕ} {s : System} (inv : Inv n s) (small : n < 2 ^ 60) where
  pub frontier-le : frontier n s.submitter ≤ n
  frontier-le = ground (arith, inv.bounded)

  at_work-le : tally at_work n s.branch ≤ n
  at_work-le = tally-le at_work n s.branch (λ b. ground arith)

  module _ (i : ℕ) where
    active_bound : s.branch i ≢ unlaunched → i < n
    active_bound h = ground (arith, frontier-le, inv.ahead i)

    -- While a branch is at work nobody is entitled to resume.
    nobody_entitled :
        at_work (s.branch i) ≡ 1
        → i < n
        → (length s.resumed ≡ 0)
          × (tally entitled n s.branch ≡ 0)
          × (entitled_submitter s.submitter ≡ 0)
    nobody_entitled h lt =
        ground (arith, inv.count, inv.one_right, weight-le-tally at_work n s.branch i lt)

    pub emplacing-Inv :
        (bad : Bool) (b : Branch)
        → s.branch i ≡ emplacing bad
        → (b ≡ (if bad then canceling else counting)) ⊎ (b ≡ (if bad then noting else counting))
        → Inv n (record s {
          state = record s.state { data_errors = update s.state.data_errors i bad };
          branch = update s.branch i b;
        })
    emplacing-Inv bad b e c = record {
      count = ground (arith, inv.count, tally-update at_work n s.branch i b bound);
      flags = inv.flags;
      bounded = inv.bounded;
      ahead = λ j h. ground (arith, inv.ahead j);
      behind = λ j h. ground (arith, inv.behind j);
      one_right = ground (arith, inv.one_right, tally-update entitled n s.branch i b bound);
      noted = λ j h k. ground (arith, inv.noted j);
      stored = λ j. ground (arith, inv.stored j);
      first = ground (arith, inv.first);
      branch_agrees = λ j. ground (arith, inv.branch_agrees j);
      submitter_agrees = inv.submitter_agrees;
      resumed_agree = inv.resumed_agree;
    }
      where
        bound : i < n
        bound = active_bound (ground arith)

    pub canceling-Inv :
        s.branch i ≡ canceling
        → Inv n (record s {
          state = record s.state { controllers = cancel_upto n s.state.controllers };
          branch = update s.branch i noting;
        })
    canceling-Inv e = record {
      count = ground (arith, inv.count, tally-update at_work n s.branch i noting bound);
      flags = inv.flags;
      bounded = inv.bounded;
      ahead = λ j h. ground (arith, inv.ahead j);
      behind = λ j h. ground (arith, inv.behind j);
      one_right = ground (arith, inv.one_right, tally-update entitled n s.branch i noting bound);
      noted = λ j h k. ground (arith, inv.noted j);
      stored = λ j. ground (arith, inv.stored j, inv.stored i);
      first = ground (arith, inv.first);
      branch_agrees = λ j. ground (arith, inv.branch_agrees j);
      submitter_agrees = inv.submitter_agrees;
      resumed_agree = inv.resumed_agree;
    }
      where
        bound : i < n
        bound = active_bound (ground arith)

    -- Nothing is decided while this branch is at work.
    undecided_branch :
        at_work (s.branch i) ≡ 1 → i < n → (failed j : ℕ) → BranchAgrees n failed (s.branch j)
    undecided_branch h lt failed j = ground (
      arith,
      active_bound,
      inv.ahead j,
      frontier-le,
      nobody_entitled h lt,
      weight-le-tally entitled n s.branch j,
    )

    undecided_submitter :
        at_work (s.branch i) ≡ 1 → i < n → (failed : ℕ) → SubmitterAgrees n failed s.submitter
    undecided_submitter h lt failed = ground (arith, nobody_entitled h lt)

    undecided_list : at_work (s.branch i) ≡ 1 → i < n → (failed : ℕ) → AllAgree n failed s.resumed
    undecided_list h lt failed = AllAgree-of_none n failed s.resumed (nobody_entitled h lt).0

    pub noting-Inv :
        s.branch i ≡ noting
        → Inv n (record s {
          state = if s.state.failed == n then record s.state { failed = i } else s.state;
          branch = update s.branch i counting;
        })
    noting-Inv e = elim (Bool-cases (s.state.failed == n)) [
      | inl none_yet ↦ rw none_yet (
          changed i (inr (bound, ground (arith, inv.stored i), ground arith))
            (λ j h k f. omega (arith, f, bound)))
      | inr some_yet ↦ rw some_yet (
          changed s.state.failed (ground (arith, inv.first)) (λ j h k. ground (arith, inv.noted j)))
    ]
      where
        bound : i < n
        bound = active_bound (ground arith)

        changed :
            (failed : ℕ)
            → First n (record s {
              state = record s.state { failed = failed };
              branch = update s.branch i counting;
            })
            → ((j : ℕ)
                → has_noted (update s.branch i counting j) ≡ true
                → s.state.data_errors j ≡ true
                → failed ≢ n)
            → Inv n (record s {
              state = record s.state { failed = failed };
              branch = update s.branch i counting;
            })
        changed failed first noted = record {
          count = ground (arith, inv.count, tally-update at_work n s.branch i counting bound);
          flags = inv.flags;
          bounded = inv.bounded;
          ahead = λ j h. ground (arith, inv.ahead j);
          behind = λ j h. ground (arith, inv.behind j);
          one_right =
              ground (arith, inv.one_right, tally-update entitled n s.branch i counting bound);
          noted = noted;
          stored = λ j. ground (arith, inv.stored j);
          first = first;
          branch_agrees = λ j. ground (arith, undecided_branch (ground arith) bound failed j);
          submitter_agrees = undecided_submitter (ground arith) bound failed;
          resumed_agree = undecided_list (ground arith) bound failed;
        }

    pub counting-Inv :
        s.branch i ≡ counting
        → Inv n (record s {
          state = record s.state { fired = sub64 s.state.fired 4 };
          branch = update s.branch i (if s.state.fired == 6 then last else finished);
        })
    counting-Inv e = record {
      count = ground (
        arith,
        inv.count,
        positive,
        at_work-le,
        tally-update at_work n s.branch i (if s.state.fired == 6 then last else finished) bound,
      );
      flags = ground (arith, inv.flags, inv.count, positive, at_work-le);
      bounded = inv.bounded;
      ahead = λ j h. ground (arith, inv.ahead j);
      behind = λ j h. ground (arith, inv.behind j);
      one_right = ground (
        arith,
        inv.flags,
        inv.count,
        positive,
        at_work-le,
        nobody_entitled (ground arith) bound,
        tally-update entitled n s.branch i (if s.state.fired == 6 then last else finished) bound,
      );
      noted = λ j h k. ground (arith, inv.noted j);
      stored = λ j. ground (arith, inv.stored j);
      first = ground (arith, inv.first);
      branch_agrees = λ j. ground (arith, inv.branch_agrees j);
      submitter_agrees = inv.submitter_agrees;
      resumed_agree = inv.resumed_agree;
    }
      where
        bound : i < n
        bound = active_bound (ground arith)

        positive : 1 ≤ tally at_work n s.branch
        positive = ground (arith, weight-le-tally at_work n s.branch i bound)

    pub last-Inv :
        s.branch i ≡ last
        → Inv n (record s { branch = update s.branch i (delivering (outcome n s.state)) })
    last-Inv e = record {
      count = ground (
        arith,
        inv.count,
        tally-update at_work n s.branch i (delivering (outcome n s.state)) bound,
      );
      flags = inv.flags;
      bounded = inv.bounded;
      ahead = λ j h. ground (arith, inv.ahead j);
      behind = λ j h. ground (arith, inv.behind j);
      one_right = ground (
        arith,
        inv.one_right,
        tally-update entitled n s.branch i (delivering (outcome n s.state)) bound,
      );
      noted = λ j h k. ground (arith, inv.noted j);
      stored = λ j. ground (arith, inv.stored j);
      first = ground (arith, inv.first);
      branch_agrees = λ j. ground (arith, inv.branch_agrees j, inv.first);
      submitter_agrees = inv.submitter_agrees;
      resumed_agree = inv.resumed_agree;
    }
      where
        bound : i < n
        bound = active_bound (ground arith)

    pub delivering-Inv :
        (o : Outcome)
        → s.branch i ≡ delivering o
        → Inv n (record s { branch = update s.branch i finished; resumed = o ∷ s.resumed })
    delivering-Inv o e = record {
      count = ground (arith, inv.count, tally-update at_work n s.branch i finished bound);
      flags = inv.flags;
      bounded = inv.bounded;
      ahead = λ j h. ground (arith, inv.ahead j);
      behind = λ j h. ground (arith, inv.behind j);
      one_right = ground (arith, inv.one_right, tally-update entitled n s.branch i finished bound);
      noted = λ j h k. ground (arith, inv.noted j);
      stored = λ j. ground (arith, inv.stored j);
      first = ground (arith, inv.first);
      branch_agrees = λ j. ground (arith, inv.branch_agrees j);
      submitter_agrees = inv.submitter_agrees;
      resumed_agree = (ground (arith, inv.branch_agrees i), inv.resumed_agree);
    }
      where
        bound : i < n
        bound = active_bound (ground arith)

    pub finishes-Inv :
        (bad : Bool)
        → s.branch i ≡ running
        → Inv n (record s { branch = update s.branch i (emplacing bad) })
    finishes-Inv bad e = record {
      count = ground (arith, inv.count, tally-update at_work n s.branch i (emplacing bad) bound);
      flags = inv.flags;
      bounded = inv.bounded;
      ahead = λ j h. ground (arith, inv.ahead j);
      behind = λ j h. ground (arith, inv.behind j);
      one_right =
          ground (arith, inv.one_right, tally-update entitled n s.branch i (emplacing bad) bound);
      noted = λ j h k. ground (arith, inv.noted j);
      stored = λ j. ground (arith, inv.stored j);
      first = ground (arith, inv.first);
      branch_agrees = λ j. ground (arith, inv.branch_agrees j);
      submitter_agrees = inv.submitter_agrees;
      resumed_agree = inv.resumed_agree;
    }
      where
        bound : i < n
        bound = active_bound (ground arith)

    -- An access of a branch that has nothing to do leaves it as it is.
    pub same-Inv : (b : Branch) → s.branch i ≡ b → Inv n (record s { branch = update s.branch i b })
    same-Inv b e = rw same inv
      where
        same : update s.branch i b ≡ s.branch
        same = fun_ext (λ j. ground arith)
