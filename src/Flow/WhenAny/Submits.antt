-- ===== src/Flow/WhenAny/Submits.antt =====
-- The accesses of the submitting thread of a `when_any` keep its invariant.
use flux_foundry.Prelude.{
  ℕ, ◌+◌, ◌/◌, ◌^◌, ◌≤◌, ◌<◌, Bool, true, false, ◌==◌, ◌&&◌, if◌then◌else◌, List, [], ◌∷◌, ◌≡◌, ◌≢◌,
  inl, update, tally, tally-update, tally-zero, arith, refl, add64, sub64,
}
use flux_foundry.Flow.WhenAll.{Kind, normal, with_success, with_failure}
use flux_foundry.Flow.WhenAny.{
  Outcome, value_from, all_failed, unlaunched, running, Submitter, created, launching, starting,
  withdrawing, judging, closing, sealing, checking, resuming, returned, conclude, begin,
}
use flux_foundry.Flow.WhenAny.System.{System}
use flux_foundry.Flow.WhenAny.Inv.{
  Inv, at_work, is_launched, wins, entitled, reports, is_sealed, holds, entitled_submitter,
  reports_submitter, Flags, frontier, Counted, values, failures, AllAgree, before_submit,
}
use flux_foundry.Flow.WhenAny.Moves.{at_work-le}

module _ {n : ℕ} {s : System} (inv : Inv n s) (small : n < 2 ^ 60) where
  -- An access that changes only the word, the controllers and the submitter.
  moved :
      (fired : ℕ) (controllers : ℕ → Bool) (c : Submitter)
      → fired / 4 ≡ tally at_work n s.branch + holds c
      → Flags c fired
      → Counted n c (tally is_launched n s.branch)
      → ((i : ℕ) → frontier n c ≤ i → s.branch i ≡ unlaunched)
      → before_submit c ≡ before_submit s.submitter
      → (s.state.winner ≡ n
          → failures s.resumed + tally entitled n s.branch + entitled_submitter c
            ≡ (if is_sealed c && (fired / 4 == 0) then 1 else 0))
      → (s.state.winner ≢ n → reports_submitter c ≡ 0)
      → Inv n (record s {
        state = record s.state { fired = fired; controllers = controllers };
        submitter = c;
      })
  moved fired controllers c count flags counted ahead begun failure quiet = record {
    count = count;
    flags = flags;
    counted = counted;
    ahead = ahead;
    value_right = ground (arith, inv.value_right, begun);
    failure_right = failure;
    no_report = λ w. ground (arith, inv.no_report, quiet);
    raced = inv.raced;
    stored = inv.stored;
    first = ground (arith, inv.first, begun);
    winner_wins = inv.winner_wins;
    resumed_agree = inv.resumed_agree;
  }

  pub launching-Inv :
      (k count : ℕ)
      → s.submitter ≡ launching k count
      → k < n
      → Inv n (record s {
        state = record s.state { fired = add64 s.state.fired 4 };
        submitter = starting k count;
      })
  launching-Inv k count e lt =
      moved (add64 s.state.fired 4) s.state.controllers (starting k count)
        (ground (arith, inv.count, inv.flags, at_work-le inv small))
        (ground (arith, inv.flags, inv.count, at_work-le inv small)) (ground (arith, inv.counted))
        (λ i h. ground (arith, inv.ahead i, inv.counted)) (ground arith)
        (λ w. ground (arith, inv.failure_right, inv.count, inv.flags, at_work-le inv small))
        (λ w. ground (arith, inv.no_report))

  pub absent-Inv :
      (k count : ℕ)
      → s.submitter ≡ launching k count
      → k < n
      → Inv n (record s { submitter = judging k count })
  absent-Inv k count e lt =
      moved s.state.fired s.state.controllers (judging k count)
        (ground (arith, inv.count, inv.flags)) (ground (arith, inv.flags, inv.count))
        (ground (arith, inv.counted)) (λ i h. ground (arith, inv.ahead i, inv.counted))
        (ground arith) (λ w. ground (arith, inv.failure_right, inv.count, inv.flags))
        (λ w. ground (arith, inv.no_report))

  pub launched_all-Inv :
      (k count : ℕ)
      → s.submitter ≡ launching k count
      → n ≤ k
      → Inv n (record s { submitter = conclude count })
  launched_all-Inv k count e ge =
      moved s.state.fired s.state.controllers (conclude count)
        (ground (arith, inv.count, inv.flags)) (ground (arith, inv.flags, inv.count))
        (ground (arith, inv.counted)) (λ i h. ground (arith, inv.ahead i, inv.counted))
        (ground arith) (λ w. ground (arith, inv.failure_right, inv.count, inv.flags))
        (λ w. ground (arith, inv.no_report))

  pub throwing-Inv :
      (k count : ℕ)
      → s.submitter ≡ starting k count
      → Inv n (record s { submitter = withdrawing k count })
  throwing-Inv k count e =
      moved s.state.fired s.state.controllers (withdrawing k count)
        (ground (arith, inv.count, inv.flags)) (ground (arith, inv.flags, inv.count))
        (ground (arith, inv.counted)) (λ i h. ground (arith, inv.ahead i, inv.counted))
        (ground arith) (λ w. ground (arith, inv.failure_right, inv.count, inv.flags))
        (λ w. ground (arith, inv.no_report))

  pub withdrawing-Inv :
      (k count : ℕ)
      → s.submitter ≡ withdrawing k count
      → Inv n (record s {
        state = record s.state { fired = sub64 s.state.fired 4 };
        submitter = judging k count;
      })
  withdrawing-Inv k count e =
      moved (sub64 s.state.fired 4) s.state.controllers (judging k count)
        (ground (arith, inv.count, inv.flags, at_work-le inv small))
        (ground (arith, inv.flags, inv.count, at_work-le inv small)) (ground (arith, inv.counted))
        (λ i h. ground (arith, inv.ahead i, inv.counted)) (ground arith)
        (λ w. ground (arith, inv.failure_right, inv.count, inv.flags, at_work-le inv small))
        (λ w. ground (arith, inv.no_report))

  pub judging-Inv :
      (k count : ℕ)
      → s.submitter ≡ judging k count
      → Inv n (record s {
        submitter = if s.state.winner == n then launching (k + 1) count else conclude count;
      })
  judging-Inv k count e =
      moved s.state.fired s.state.controllers
        (if s.state.winner == n then launching (k + 1) count else conclude count)
        (ground (arith, inv.count, inv.flags)) (ground (arith, inv.flags, inv.count))
        (ground (arith, inv.counted)) (λ i h. ground (arith, inv.ahead i, inv.counted))
        (ground arith) (λ w. ground (arith, inv.failure_right, inv.count, inv.flags))
        (λ w. ground (arith, inv.no_report))

  pub closing-Inv :
      s.submitter ≡ closing
      → Inv n (record s {
        state = record s.state { fired = with_failure s.state.fired };
        submitter = returned false;
      })
  closing-Inv e =
      moved (with_failure s.state.fired) s.state.controllers (returned false)
        (ground (arith, inv.count, inv.flags, at_work-le inv small))
        (ground (arith, inv.flags, inv.count, at_work-le inv small)) (ground (arith, inv.counted))
        (λ i h. ground (arith, inv.ahead i, inv.counted)) (ground arith)
        (λ w. ground (arith, inv.failure_right, inv.count, inv.flags, at_work-le inv small))
        (λ w. ground (arith, inv.no_report))

  pub sealing-Inv :
      s.submitter ≡ sealing
      → Inv n (record s {
        state = record s.state { fired = with_success s.state.fired };
        submitter = if s.state.fired == 0 then checking else returned true;
      })
  sealing-Inv e =
      moved (with_success s.state.fired) s.state.controllers
        (if s.state.fired == 0 then checking else returned true)
        (ground (arith, inv.count, inv.flags, at_work-le inv small))
        (ground (arith, inv.flags, inv.count, at_work-le inv small)) (ground (arith, inv.counted))
        (λ i h. ground (arith, inv.ahead i, inv.counted)) (ground arith)
        (λ w. ground (arith, inv.failure_right, inv.count, inv.flags, at_work-le inv small))
        (λ w. ground (arith, inv.no_report))

  pub checking-Inv :
      s.submitter ≡ checking
      → Inv n (record s { submitter = if s.state.winner == n then resuming else returned true })
  checking-Inv e =
      moved s.state.fired s.state.controllers
        (if s.state.winner == n then resuming else returned true)
        (ground (arith, inv.count, inv.flags)) (ground (arith, inv.flags, inv.count))
        (ground (arith, inv.counted)) (λ i h. ground (arith, inv.ahead i, inv.counted))
        (ground arith) (λ w. ground (arith, inv.failure_right, inv.count, inv.flags))
        (λ w. ground (arith, inv.no_report))

  pub cancels-Inv :
      (controllers : ℕ → Bool)
      → Inv n (record s { state = record s.state { controllers = controllers } })
  cancels-Inv controllers =
      moved s.state.fired controllers s.submitter inv.count inv.flags inv.counted inv.ahead refl
        inv.failure_right (λ w. ground (arith, inv.no_report))

  pub resuming-Inv :
      s.submitter ≡ resuming
      → Inv n (record s { submitter = returned true; resumed = all_failed ∷ s.resumed })
  resuming-Inv e = record {
    count = ground (arith, inv.count);
    flags = ground (arith, inv.flags);
    counted = ground (arith, inv.counted);
    ahead = λ i h. ground (arith, inv.ahead i);
    value_right = ground (arith, inv.value_right);
    failure_right = λ w. ground (arith, inv.failure_right);
    no_report = λ w. ground (arith, inv.no_report);
    raced = inv.raced;
    stored = inv.stored;
    first = ground (arith, inv.first);
    winner_wins = inv.winner_wins;
    resumed_agree = (ground (arith, inv.no_report), inv.resumed_agree);
  }

  -- The branch of a runner that starts was not launched, and it takes over the submitter's part.
  pub started-Inv :
      (k count : ℕ)
      → s.submitter ≡ starting k count
      → Inv n (record s { submitter = judging k (count + 1); branch = update s.branch k running })
  started-Inv k count e = record {
    count = ground (arith, inv.count, tally-update at_work n s.branch k running bound, before);
    flags = ground (arith, inv.flags);
    counted =
        ground (arith, inv.counted, tally-update is_launched n s.branch k running bound, before);
    ahead = λ i h. ground (arith, inv.ahead i);
    value_right =
        ground (arith, inv.value_right, tally-update wins n s.branch k running bound, before);
    failure_right = λ w.
        ground (arith, inv.failure_right, tally-update entitled n s.branch k running bound, before);
    no_report =
        λ w. ground (arith, inv.no_report, tally-update reports n s.branch k running bound, before);
    raced = λ i h. ground (arith, inv.raced i);
    stored = λ i. ground (arith, inv.stored i);
    first = ground (arith, inv.first, before);
    winner_wins = λ i. ground (arith, inv.winner_wins i);
    resumed_agree = inv.resumed_agree;
  }
    where
      bound : k < n
      bound = ground (arith, inv.counted)

      before : s.branch k ≡ unlaunched
      before = ground (arith, inv.ahead k)

  pub created-Inv :
      (kind : Kind)
      → s.submitter ≡ created
      → (kind ≡ normal → s.state.winner ≡ n)
      → Inv n (record s { state = begin kind n s.state; submitter = launching 0 0 })
  created-Inv kind e init = record {
    count = ground (arith, inv.count);
    flags = ground (arith, inv.flags);
    counted = ground (arith, inv.counted);
    ahead = λ i h. ground (arith, inv.ahead i);
    value_right = ground (arith, inv.value_right, winner_set);
    failure_right = λ w. ground (arith, inv.failure_right, inv.no_report, none_entitled);
    no_report = λ w. absurd (w winner_set);
    raced = λ i h. ground (arith, inv.ahead i);
    stored = λ i. ground (arith, inv.stored i);
    first = inl winner_set;
    winner_wins = λ i. ground (arith, inv.ahead i);
    resumed_agree =
        nobody_resumed s.resumed (ground (arith, inv.failure_right, inv.no_report, none_entitled))
          (ground (arith, inv.value_right));
  }
    where
      winner_set : (begin kind n s.state).winner ≡ n
      winner_set = ground (arith, init)

      none_entitled : tally entitled n s.branch ≡ 0
      none_entitled = tally-zero entitled n s.branch (λ i. ground (arith, inv.ahead i))

      nobody_resumed :
          (os : List Outcome)
          → failures os ≡ 0
          → values os ≡ 0
          → AllAgree n (begin kind n s.state).winner os
      nobody_resumed [] f v = tt
      nobody_resumed (value_from k ∷ os) f v = absurd (omega arith)
      nobody_resumed (all_failed ∷ os) f v = absurd (omega arith)
