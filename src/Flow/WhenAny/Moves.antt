-- ===== src/Flow/WhenAny/Moves.antt =====
-- The accesses of the delegates of a `when_any` before they count keep its invariant.
use flux_foundry.Prelude.{
  ℕ, ◌+◌, ◌^◌, ◌≤◌, ◌<◌, Bool, true, false, if◌then◌else◌, ◌∷◌, ◌≡◌, ◌≢◌, ◌⊎◌, update, tally,
  tally-update, weight-le-tally, tally-le, tally_mono, arith,
}
use flux_foundry.Flow.WhenAll.{cancel_upto}
use flux_foundry.Flow.WhenAny.{
  value_from, Branch, unlaunched, emplacing, racing, winning, canceling, counting,
}
use flux_foundry.Flow.WhenAny.System.{System}
use flux_foundry.Flow.WhenAny.Inv.{
  Inv, at_work, is_launched, wins, entitled, reports, entitled_submitter, reports_submitter,
  frontier, failures, before_submit,
}

module _ {n : ℕ} {s : System} (inv : Inv n s) (small : n < 2 ^ 60) where
  pub frontier-le : frontier n s.submitter ≤ n
  frontier-le = ground (arith, inv.counted)

  pub at_work-le : tally at_work n s.branch ≤ n
  at_work-le = tally-le at_work n s.branch (λ b. ground arith)

  pub reports-le :
      tally reports n s.branch + reports_submitter s.submitter
      ≤ tally entitled n s.branch + entitled_submitter s.submitter
  reports-le = ground (arith, tally_mono reports entitled n s.branch (λ b. ground arith))

  -- While a branch is launched, `submit` has begun.
  module _ (i : ℕ) where
    pub active_bound : s.branch i ≢ unlaunched → (i < n) × (before_submit s.submitter ≡ false)
    active_bound h = ground (arith, frontier-le, inv.ahead i)

    -- While a branch is at work and nobody has won, nobody reports that all failed.
    pub nobody_reports :
        at_work (s.branch i) ≡ 1
        → i < n
        → s.state.winner ≡ n
        → (failures s.resumed ≡ 0)
          × (tally entitled n s.branch ≡ 0)
          × (entitled_submitter s.submitter ≡ 0)
    nobody_reports h lt w =
        ground (arith, inv.count, inv.failure_right, weight-le-tally at_work n s.branch i lt)

    pub emplacing-Inv :
        (bad : Bool)
        → s.branch i ≡ emplacing bad
        → Inv n (record s {
          state = record s.state { data_errors = update s.state.data_errors i bad };
          branch = update s.branch i (if bad then counting false else racing);
        })
    emplacing-Inv bad e = record {
      count = ground (
        arith,
        inv.count,
        tally-update at_work n s.branch i (if bad then counting false else racing) bound.0,
      );
      flags = inv.flags;
      counted = ground (
        arith,
        inv.counted,
        tally-update is_launched n s.branch i (if bad then counting false else racing) bound.0,
      );
      ahead = λ j h. ground (arith, inv.ahead j);
      value_right = ground (
        arith,
        inv.value_right,
        bound,
        tally-update wins n s.branch i (if bad then counting false else racing) bound.0,
      );
      failure_right = λ w. ground (
        arith,
        inv.failure_right,
        tally-update entitled n s.branch i (if bad then counting false else racing) bound.0,
      );
      no_report = λ w. ground (
        arith,
        inv.no_report,
        tally-update reports n s.branch i (if bad then counting false else racing) bound.0,
      );
      raced = λ j h k. ground (arith, inv.raced j);
      stored = λ j. ground (arith, inv.stored j);
      first = ground (arith, inv.first);
      winner_wins = λ j. ground (arith, inv.winner_wins j);
      resumed_agree = inv.resumed_agree;
    }
      where
        bound : (i < n) × (before_submit s.submitter ≡ false)
        bound = active_bound (ground arith)

    pub winning-Inv :
        (b : Branch)
        → s.branch i ≡ winning
        → (b ≡ canceling) ⊎ (b ≡ counting true)
        → Inv n (record s { branch = update s.branch i b; resumed = value_from i ∷ s.resumed })
    winning-Inv b e c = record {
      count = ground (arith, inv.count, tally-update at_work n s.branch i b bound.0);
      flags = inv.flags;
      counted = ground (arith, inv.counted, tally-update is_launched n s.branch i b bound.0);
      ahead = λ j h. ground (arith, inv.ahead j);
      value_right =
          ground (arith, inv.value_right, bound, tally-update wins n s.branch i b bound.0);
      failure_right =
          λ w. ground (arith, inv.failure_right, tally-update entitled n s.branch i b bound.0);
      no_report = λ w. ground (arith, inv.no_report, tally-update reports n s.branch i b bound.0);
      raced = λ j h k. ground (arith, inv.raced j);
      stored = λ j. ground (arith, inv.stored j);
      first = ground (arith, inv.first);
      winner_wins = λ j. ground (arith, inv.winner_wins j);
      resumed_agree = (ground (arith, inv.winner_wins i, bound), inv.resumed_agree);
    }
      where
        bound : (i < n) × (before_submit s.submitter ≡ false)
        bound = active_bound (ground arith)

    pub canceling-Inv :
        s.branch i ≡ canceling
        → Inv n (record s {
          state = record s.state { controllers = cancel_upto n s.state.controllers };
          branch = update s.branch i (counting true);
        })
    canceling-Inv e = record {
      count = ground (arith, inv.count, tally-update at_work n s.branch i (counting true) bound.0);
      flags = inv.flags;
      counted =
          ground
            (arith, inv.counted, tally-update is_launched n s.branch i (counting true) bound.0);
      ahead = λ j h. ground (arith, inv.ahead j);
      value_right =
          ground
            (arith, inv.value_right, bound, tally-update wins n s.branch i (counting true) bound.0);
      failure_right = λ w.
          ground
            (arith, inv.failure_right, tally-update entitled n s.branch i (counting true) bound.0);
      no_report = λ w.
          ground (arith, inv.no_report, tally-update reports n s.branch i (counting true) bound.0);
      raced = λ j h k. ground (arith, inv.raced j);
      stored = λ j. ground (arith, inv.stored j);
      first = ground (arith, inv.first);
      winner_wins = λ j. ground (arith, inv.winner_wins j);
      resumed_agree = inv.resumed_agree;
    }
      where
        bound : (i < n) × (before_submit s.submitter ≡ false)
        bound = active_bound (ground arith)
