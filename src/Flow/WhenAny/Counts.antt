-- ===== src/Flow/WhenAny/Counts.antt =====
-- From the count of a branch to its end, each access of a delegate keeps the invariant.
use mathlib.Core.Path.{fun_ext}
use flux_foundry.Prelude.{
  ℕ, ◌^◌, ◌≤◌, ◌<◌, Bool, false, not, ◌&&◌, ◌==◌, if◌then◌else◌, ◌∷◌, ◌≡◌, update, tally,
  tally-update, weight-le-tally, arith, sub64,
}
use flux_foundry.Flow.WhenAny.{
  all_failed, Branch, running, emplacing, counting, last, delivering, finished,
}
use flux_foundry.Flow.WhenAny.System.{System}
use flux_foundry.Flow.WhenAny.Inv.{
  Inv, at_work, is_launched, wins, entitled, reports, before_submit,
}
use flux_foundry.Flow.WhenAny.Moves.{active_bound, nobody_reports, at_work-le}

module _ {n : ℕ} {s : System} (inv : Inv n s) (small : n < 2 ^ 60) (i : ℕ) where
  pub counting-Inv :
      (i_won : Bool)
      → s.branch i ≡ counting i_won
      → Inv n (record s {
        state = record s.state { fired = sub64 s.state.fired 4 };
        branch = update s.branch i (if (s.state.fired == 6) && not i_won then last else finished);
      })
  counting-Inv i_won e = record {
    count = ground (
      arith,
      inv.count,
      positive,
      at_work-le inv small,
      tally-update at_work n s.branch i
          (if (s.state.fired == 6) && not i_won then last else finished) bound.0,
    );
    flags = ground (arith, inv.flags, inv.count, positive, at_work-le inv small);
    counted = ground (
      arith,
      inv.counted,
      tally-update is_launched n s.branch i
          (if (s.state.fired == 6) && not i_won then last else finished) bound.0,
    );
    ahead = λ j h. ground (arith, inv.ahead j);
    value_right = ground (
      arith,
      inv.value_right,
      bound,
      tally-update wins n s.branch i (if (s.state.fired == 6) && not i_won then last else finished)
          bound.0,
    );
    failure_right = λ w. ground (
      arith,
      inv.winner_wins i,
      bound,
      inv.flags,
      inv.count,
      positive,
      at_work-le inv small,
      nobody_reports inv small i (ground arith) bound.0 w,
      tally-update entitled n s.branch i
          (if (s.state.fired == 6) && not i_won then last else finished) bound.0,
    );
    no_report = λ w. ground (
      arith,
      inv.no_report,
      tally-update reports n s.branch i
          (if (s.state.fired == 6) && not i_won then last else finished) bound.0,
    );
    raced = λ j h k. ground (arith, inv.raced j);
    stored = λ j. ground (arith, inv.stored j);
    first = ground (arith, inv.first);
    winner_wins = λ j. ground (arith, inv.winner_wins j);
    resumed_agree = inv.resumed_agree;
  }
    where
      bound : (i < n) × (before_submit s.submitter ≡ false)
      bound = active_bound inv small i (ground arith)

      positive : 1 ≤ tally at_work n s.branch
      positive = ground (arith, weight-le-tally at_work n s.branch i bound.0)

  pub last-Inv :
      s.branch i ≡ last
      → Inv n (record s {
        branch = update s.branch i (if s.state.winner == n then delivering else finished);
      })
  last-Inv e = record {
    count = ground (
      arith,
      inv.count,
      tally-update at_work n s.branch i (if s.state.winner == n then delivering else finished)
          bound.0,
    );
    flags = inv.flags;
    counted = ground (
      arith,
      inv.counted,
      tally-update is_launched n s.branch i (if s.state.winner == n then delivering else finished)
          bound.0,
    );
    ahead = λ j h. ground (arith, inv.ahead j);
    value_right = ground (
      arith,
      inv.value_right,
      bound,
      tally-update wins n s.branch i (if s.state.winner == n then delivering else finished) bound.0,
    );
    failure_right = λ w. ground (
      arith,
      inv.failure_right,
      tally-update entitled n s.branch i (if s.state.winner == n then delivering else finished)
          bound.0,
    );
    no_report = λ w. ground (
      arith,
      inv.no_report,
      tally-update reports n s.branch i (if s.state.winner == n then delivering else finished)
          bound.0,
    );
    raced = λ j h k. ground (arith, inv.raced j);
    stored = λ j. ground (arith, inv.stored j);
    first = ground (arith, inv.first);
    winner_wins = λ j. ground (arith, inv.winner_wins j);
    resumed_agree = inv.resumed_agree;
  }
    where
      bound : (i < n) × (before_submit s.submitter ≡ false)
      bound = active_bound inv small i (ground arith)

  pub delivering-Inv :
      s.branch i ≡ delivering
      → Inv n (record s { branch = update s.branch i finished; resumed = all_failed ∷ s.resumed })
  delivering-Inv e = record {
    count = ground (arith, inv.count, tally-update at_work n s.branch i finished bound.0);
    flags = inv.flags;
    counted = ground (arith, inv.counted, tally-update is_launched n s.branch i finished bound.0);
    ahead = λ j h. ground (arith, inv.ahead j);
    value_right =
        ground (arith, inv.value_right, bound, tally-update wins n s.branch i finished bound.0);
    failure_right =
        λ w. ground (arith, inv.failure_right, tally-update entitled n s.branch i finished bound.0);
    no_report =
        λ w. ground (arith, inv.no_report, tally-update reports n s.branch i finished bound.0);
    raced = λ j h k. ground (arith, inv.raced j);
    stored = λ j. ground (arith, inv.stored j);
    first = ground (arith, inv.first);
    winner_wins = λ j. ground (arith, inv.winner_wins j);
    resumed_agree = (
      ground (arith, inv.no_report, weight-le-tally reports n s.branch i bound.0),
      inv.resumed_agree,
    );
  }
    where
      bound : (i < n) × (before_submit s.submitter ≡ false)
      bound = active_bound inv small i (ground arith)

  pub finishes-Inv :
      (bad : Bool)
      → s.branch i ≡ running
      → Inv n (record s { branch = update s.branch i (emplacing bad) })
  finishes-Inv bad e = record {
    count = ground (arith, inv.count, tally-update at_work n s.branch i (emplacing bad) bound.0);
    flags = inv.flags;
    counted =
        ground (arith, inv.counted, tally-update is_launched n s.branch i (emplacing bad) bound.0);
    ahead = λ j h. ground (arith, inv.ahead j);
    value_right =
        ground
          (arith, inv.value_right, bound, tally-update wins n s.branch i (emplacing bad) bound.0);
    failure_right = λ w.
        ground
          (arith, inv.failure_right, tally-update entitled n s.branch i (emplacing bad) bound.0);
    no_report = λ w.
        ground (arith, inv.no_report, tally-update reports n s.branch i (emplacing bad) bound.0);
    raced = λ j h k. ground (arith, inv.raced j);
    stored = λ j. ground (arith, inv.stored j);
    first = ground (arith, inv.first);
    winner_wins = λ j. ground (arith, inv.winner_wins j);
    resumed_agree = inv.resumed_agree;
  }
    where
      bound : (i < n) × (before_submit s.submitter ≡ false)
      bound = active_bound inv small i (ground arith)

  -- An access of a branch that has nothing to do leaves it as it is.
  pub same-Inv : (b : Branch) → s.branch i ≡ b → Inv n (record s { branch = update s.branch i b })
  same-Inv b e = rw same inv
    where
      same : update s.branch i b ≡ s.branch
      same = fun_ext (λ j. ground arith)
