-- ===== src/Flow/WhenAny/Race.antt =====
-- The race of the branches of a `when_any`: the exchange on the winner keeps the invariant.
use flux_foundry.Prelude.{ℕ, ◌^◌, ◌<◌, false, List, [], ◌∷◌, ◌≡◌, ◌≢◌, update, tally-update, arith}
use flux_foundry.Flow.WhenAny.{Outcome, value_from, all_failed, racing, winning, counting}
use flux_foundry.Flow.WhenAny.System.{System}
use flux_foundry.Flow.WhenAny.Inv.{
  Inv, at_work, is_launched, wins, reports, values, failures, AllAgree, Wins, before_submit,
}
use flux_foundry.Flow.WhenAny.Moves.{frontier-le, reports-le, active_bound, nobody_reports}

module _ {n : ℕ} {s : System} (inv : Inv n s) (small : n < 2 ^ 60) (i : ℕ) where
  pub losing-Inv :
      s.branch i ≡ racing
      → s.state.winner ≢ n
      → Inv n (record s { branch = update s.branch i (counting false) })
  losing-Inv e lost = record {
    count = ground (arith, inv.count, tally-update at_work n s.branch i (counting false) bound.0);
    flags = inv.flags;
    counted =
        ground (arith, inv.counted, tally-update is_launched n s.branch i (counting false) bound.0);
    ahead = λ j h. ground (arith, inv.ahead j);
    value_right =
        ground
          (arith, inv.value_right, bound, tally-update wins n s.branch i (counting false) bound.0);
    failure_right = λ w. absurd (lost w);
    no_report = λ w.
        ground (arith, inv.no_report, tally-update reports n s.branch i (counting false) bound.0);
    raced = λ j h k. lost;
    stored = λ j. ground (arith, inv.stored j);
    first = ground (arith, inv.first);
    winner_wins = λ j. ground (arith, inv.winner_wins j);
    resumed_agree = inv.resumed_agree;
  }
    where
      bound : (i < n) × (before_submit s.submitter ≡ false)
      bound = active_bound inv small i (ground arith)

  pub win-Inv :
      s.branch i ≡ racing
      → s.state.winner ≡ n
      → Inv n
          (record s { state = record s.state { winner = i }; branch = update s.branch i winning })
  win-Inv e free = record {
    count = ground (arith, inv.count, tally-update at_work n s.branch i winning bound.0);
    flags = inv.flags;
    counted = ground (arith, inv.counted, tally-update is_launched n s.branch i winning bound.0);
    ahead = λ j h. ground (arith, inv.ahead j);
    value_right =
        ground (arith, inv.value_right, bound, tally-update wins n s.branch i winning bound.0);
    failure_right = λ w. ground (arith, bound);
    no_report = λ w. ground (
      arith,
      reports-le inv small,
      nobody_reports inv small i (ground arith) bound.0 free,
      tally-update reports n s.branch i winning bound.0,
    );
    raced = λ j h k f. omega (arith, bound, f);
    stored = λ j. ground (arith, inv.stored j);
    first = ground (arith, bound, inv.stored i);
    winner_wins = λ j. ground (arith, nobody_won j);
    resumed_agree =
        nobody_resumed s.resumed (nobody_reports inv small i (ground arith) bound.0 free).0
          (ground (arith, inv.value_right));
  }
    where
      bound : (i < n) × (before_submit s.submitter ≡ false)
      bound = active_bound inv small i (ground arith)

      nobody_won : (j : ℕ) → Wins i j (s.branch j)
      nobody_won j = ground (arith, inv.winner_wins j, inv.ahead j, frontier-le inv small)

      nobody_resumed : (os : List Outcome) → failures os ≡ 0 → values os ≡ 0 → AllAgree n i os
      nobody_resumed [] f v = tt
      nobody_resumed (value_from k ∷ os) f v = absurd (omega arith)
      nobody_resumed (all_failed ∷ os) f v = absurd (omega arith)
