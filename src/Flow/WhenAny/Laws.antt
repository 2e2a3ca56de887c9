-- ===== src/Flow/WhenAny/Laws.antt =====
-- What the user of a `when_any` can rely on.
use mathlib.Core.Path.{subst}
use native.Mathlib.Decide.{dec_lt, ℕ_discrete}
use flux_foundry.Prelude.{
  ℕ, ◌+◌, ◌^◌, ◌<◌, ◌≤◌, ◌%◌, Bool, true, false, ◌==◌, ltb, List, [], ◌∷◌, ◌≡◌, ◌⊎◌, inl, inr,
  length, tally, tally-zero, weight-le-tally, Bool-cases, arith, refl,
}
use flux_foundry.Flow.WhenAll.{Kind, normal, cancel_upto}
use flux_foundry.Flow.WhenAny.{
  Outcome, value_from, all_failed, Branch, unlaunched, running, emplacing, racing, winning,
  canceling, counting, last, delivering, finished, Submitter, created, launching, starting,
  withdrawing, judging, closing, sealing, checking, resuming, returned, emplace_step, submit_step,
  cancel, after_win,
}
use flux_foundry.Flow.WhenAny.System.{
  System, start, submits, finishes, accesses, cancels, Reach, initial, later, submit_access,
  branch_access,
}
use flux_foundry.Flow.WhenAny.Inv.{
  Inv, at_work, is_launched, entitled, wins, reports, Agrees, AllAgree, values, failures,
}
use flux_foundry.Flow.WhenAny.Moves.{emplacing-Inv, winning-Inv, canceling-Inv, frontier-le}
use flux_foundry.Flow.WhenAny.Counts.{
  counting-Inv, last-Inv, delivering-Inv, finishes-Inv, same-Inv,
}
use flux_foundry.Flow.WhenAny.Race.{losing-Inv, win-Inv}
use flux_foundry.Flow.WhenAny.Submits.{
  created-Inv, launching-Inv, absent-Inv, launched_all-Inv, throwing-Inv, withdrawing-Inv,
  judging-Inv, closing-Inv, sealing-Inv, checking-Inv, cancels-Inv, resuming-Inv, started-Inv,
}

start-Inv : (kind : Kind) (n : ℕ) → Inv n (start kind n)
start-Inv kind n = record {
  count = ground (arith, tally-zero at_work n (λ i. unlaunched) (λ i. refl));
  flags = refl;
  counted = ground (arith, tally-zero is_launched n (λ i. unlaunched) (λ i. refl));
  ahead = λ i h. refl;
  value_right = ground (arith, tally-zero wins n (λ i. unlaunched) (λ i. refl));
  failure_right = λ w. ground (arith, tally-zero entitled n (λ i. unlaunched) (λ i. refl));
  no_report = λ w. ground (arith, tally-zero reports n (λ i. unlaunched) (λ i. refl));
  raced = λ i h. ground arith;
  stored = λ i. tt;
  first = tt;
  winner_wins = λ i. tt;
  resumed_agree = tt;
}

-- The cancellable state starts with no winner.
abbrev Initialised : Kind → ℕ → System → Type 0
Initialised kind n s = s.submitter ≡ created → kind ≡ normal → s.state.winner ≡ n

module _ {n : ℕ} {s : System} (inv : Inv n s) (small : n < 2 ^ 60) (kind : Kind) where
  submit-Inv :
      (packs : ℕ → Bool) (throws : Bool) (c : Submitter)
      → Initialised kind n s
      → s.submitter ≡ c
      → Inv n (submit_access kind n packs throws s)
  unfolding submit_step
  submit-Inv packs throws created init e = rw e (created-Inv inv small kind e (init e))
  submit-Inv packs throws (launching k count) init e = elim (Bool-cases (ltb k n)) [
    | inl more ↦ elim (Bool-cases (packs k)) [
      | inl present ↦ rw (e, more, present) (launching-Inv inv small k count e (ground arith))
      | inr missing ↦ rw (e, more, missing) (absent-Inv inv small k count e (ground arith))
    ]
    | inr all ↦ rw (e, all) (launched_all-Inv inv small k count e (ground arith))
  ]
  submit-Inv packs true (starting k count) init e = rw e (throwing-Inv inv small k count e)
  submit-Inv packs false (starting k count) init e = rw e (started-Inv inv small k count e)
  submit-Inv packs throws (withdrawing k count) init e = rw e (withdrawing-Inv inv small k count e)
  submit-Inv packs throws (judging k count) init e = rw e (judging-Inv inv small k count e)
  submit-Inv packs throws closing init e = rw e (closing-Inv inv small e)
  submit-Inv packs throws sealing init e = rw e (sealing-Inv inv small e)
  submit-Inv packs throws checking init e = rw e (checking-Inv inv small e)
  submit-Inv packs throws resuming init e = rw e (resuming-Inv inv small e)
  submit-Inv packs throws (returned ok) init e = rw e (rw e at inv)

  branch-Inv : (i : ℕ) (b : Branch) → s.branch i ≡ b → Inv n (branch_access kind n s i)
  unfolding emplace_step
  branch-Inv i (emplacing bad) e = rw e (emplacing-Inv inv small i bad e)
  branch-Inv i racing e = elim (Bool-cases (s.state.winner == n)) [
    | inl free ↦ rw (e, free) (win-Inv inv small i e (ground arith))
    | inr taken ↦ rw (e, taken) (losing-Inv inv small i e (ground arith))
  ]
  branch-Inv i winning e = rw e (winning-Inv inv small i (after_win kind) e (ground arith))
  branch-Inv i canceling e = rw e (canceling-Inv inv small i e)
  branch-Inv i (counting i_won) e = rw e (counting-Inv inv small i i_won e)
  branch-Inv i last e = rw e (last-Inv inv small i e)
  branch-Inv i delivering e = rw e (delivering-Inv inv small i e)
  branch-Inv i unlaunched e = rw e (same-Inv inv small i unlaunched e)
  branch-Inv i running e = rw e (same-Inv inv small i running e)
  branch-Inv i finished e = rw e (same-Inv inv small i finished e)

  cancel-Inv : Inv n (record s { state = cancel n s.state })
  unfolding cancel
  cancel-Inv = elim (Bool-cases (s.state.fired % 2 == 1)) [
    | inl marked ↦ rw marked inv
    | inr unmarked ↦ rw unmarked (cancels-Inv inv small (cancel_upto n s.state.controllers))
  ]

module _ {kind : Kind} {n : ℕ} {packs : ℕ → Bool} (small : n < 2 ^ 60) where
  -- The invariant, and the winner that `submit` finds.
  Reach-both : {s : System} → Reach kind n packs s → Inv n s × Initialised kind n s
  unfolding submit_step emplace_step cancel
  Reach-both initial = (start-Inv kind n, λ e h. ground arith)
  Reach-both (later {s = s} r (submits throws)) =
      let both = Reach-both r in
      (
        submit-Inv both.0 small kind packs throws s.submitter both.1 refl,
        λ e h. ground (arith, both.1),
      )
  Reach-both (later r (finishes i bad e)) =
      let both = Reach-both r in (finishes-Inv both.0 small i bad e, both.1)
  Reach-both (later {s = s} r (accesses i)) =
      let both = Reach-both r in
      (
        branch-Inv both.0 small kind i (s.branch i) refl,
        λ e h. ground (arith, both.0.ahead i, both.1),
      )
  Reach-both (later r cancels) =
      let both = Reach-both r in (cancel-Inv both.0 small kind, λ e h. ground (arith, both.1))

pub Reach-Inv :
    {kind : Kind} {n : ℕ} {packs : ℕ → Bool} {s : System}
    → n < 2 ^ 60
    → Reach kind n packs s
    → Inv n s
Reach-Inv small r = (Reach-both small r).0

length_split : (os : List Outcome) → length os ≡ values os + failures os
length_split [] = refl
length_split (value_from i ∷ os) = omega (arith, length_split os)
length_split (all_failed ∷ os) = omega (arith, length_split os)

-- No double resume: in every reachable state of fewer than 2 ^ 60 branches the awaitable has been
-- resumed at most once, be it with a value or with the failure of all.
pub any_resumes_at_most_once :
    {kind : Kind} {n : ℕ} {packs : ℕ → Bool} {s : System}
    → n < 2 ^ 60
    → Reach kind n packs s
    → length s.resumed ≤ 1
any_resumes_at_most_once {n = n} {s = s} small r =
    let inv = Reach-Inv small r in
    elim (ℕ_discrete s.state.winner n) [
      | yes free ↦
          ground (arith, free, inv.value_right, inv.failure_right free, length_split s.resumed)
      | no taken ↦ ground (arith, inv.value_right, inv.no_report taken, length_split s.resumed)
    ]

module _ {n : ℕ} {s : System} (inv : Inv n s) where
  none_launched : tally is_launched n s.branch ≡ 0 → (i : ℕ) → i < n → s.branch i ≡ unlaunched
  none_launched h i lt = ground (arith, weight-le-tally is_launched n s.branch i lt)

  closed_free : s.submitter ≡ returned false → s.state.winner ≡ n
  closed_free h =
      ground
        (arith, inv.first, inv.counted, none_launched (ground (arith, inv.counted)) s.state.winner)

  -- Where every launched branch has finished, a weight that such branches do not have sums to 0.
  at_rest :
      (weight : Branch → ℕ)
      → weight finished ≡ 0
      → weight unlaunched ≡ 0
      → n < 2 ^ 60
      → ((i : ℕ) → i < n → (s.branch i ≡ unlaunched) ⊎ (s.branch i ≡ finished))
      → tally weight n s.branch ≡ 0
  at_rest weight f u small all = tally-zero weight n s.branch (λ i. elim (dec_lt i n) [
    | yes lt ↦ elim (all i lt) [ inl e ↦ rw e u | inr e ↦ rw e f ]
    | no ge ↦ rw (inv.ahead i (omega (arith, frontier-le inv small))) u
  ])

-- A failing `submit` is silent: when it has returned an error, none of fewer than 2 ^ 60 branches
-- is launched, and the awaitable has not been resumed.
pub any_failed_submit :
    {kind : Kind} {n : ℕ} {packs : ℕ → Bool} {s : System}
    → n < 2 ^ 60
    → Reach kind n packs s
    → s.submitter ≡ returned false
    → ((i : ℕ) → i < n → s.branch i ≡ unlaunched) × (length s.resumed ≡ 0)
any_failed_submit {s = s} small r h =
    let inv = Reach-Inv small r in
    let free = closed_free inv h in
    (
      none_launched inv (ground (arith, inv.counted)),
      ground (arith, free, inv.value_right, inv.failure_right free, length_split s.resumed),
    )

-- No lost resume: when `submit` has returned success and every launched one of fewer than 2 ^ 60
-- branches has finished, in whatever order, the awaitable has been resumed exactly once.
pub any_resumes_in_the_end :
    {kind : Kind} {n : ℕ} {packs : ℕ → Bool} {s : System}
    → n < 2 ^ 60
    → Reach kind n packs s
    → s.submitter ≡ returned true
    → ((i : ℕ) → i < n → (s.branch i ≡ unlaunched) ⊎ (s.branch i ≡ finished))
    → length s.resumed ≡ 1
any_resumes_in_the_end {n = n} {s = s} small r done all =
    let inv = Reach-Inv small r in
    let no_work = at_rest inv at_work refl refl small all in
    let no_win = at_rest inv wins refl refl small all in
    let no_right = at_rest inv entitled refl refl small all in
    elim (ℕ_discrete s.state.winner n) [
      | yes free ↦ ground (
        arith,
        free,
        no_work,
        no_win,
        no_right,
        inv.count,
        inv.flags,
        inv.value_right,
        inv.failure_right free,
        length_split s.resumed,
      )
      | no taken ↦
          ground (arith, no_win, inv.value_right, inv.no_report taken, length_split s.resumed)
    ]

-- What an outcome says of the branches.
abbrev pub Explains : ℕ → System → Outcome → Type 0
Explains n s (value_from i) = (i < n) × (s.state.winner ≡ i) × (s.state.data_errors i ≡ false)
Explains n s all_failed =
    (i : ℕ) → i < n → (s.branch i ≡ unlaunched) ⊎ (s.state.data_errors i ≡ true)

-- The result is right: when the awaitable of fewer than 2 ^ 60 branches has been resumed, it got the
-- value of the winner, which stored one, or the failure of all, and then every launched branch stored
-- an error.
pub any_resumed_with_result :
    {kind : Kind} {n : ℕ} {packs : ℕ → Bool} {s : System} {o : Outcome} {os : List Outcome}
    → n < 2 ^ 60
    → Reach kind n packs s
    → s.resumed ≡ o ∷ os
    → Explains n s o
any_resumed_with_result {n = n} {s = s} {o = o} {os = os} small r e =
    explain o e (subst (AllAgree n s.state.winner) e inv.resumed_agree).0
  where
    inv : Inv n s
    inv = Reach-Inv small r

    explain : (o : Outcome) → s.resumed ≡ o ∷ os → Agrees n s.state.winner o → Explains n s o
    explain (value_from i) e a = ground (arith, inv.first, inv.value_right, e)
    explain all_failed e a = λ i lt. ground (
      arith,
      e,
      inv.count,
      inv.failure_right a,
      inv.raced i,
      weight-le-tally at_work n s.branch i lt,
    )
