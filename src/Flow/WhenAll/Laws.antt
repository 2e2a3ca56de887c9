-- ===== src/Flow/WhenAll/Laws.antt =====
-- What the user of a `when_all` can rely on.
use mathlib.Core.Path.{subst}
use native.Mathlib.Decide.{dec_lt}
use flux_foundry.Prelude.{
  ℕ, ◌+◌, ◌^◌, ◌<◌, ◌≤◌, Bool, true, false, ◌==◌, ltb, if◌then◌else◌, List, ◌∷◌, ◌≡◌, inl, inr,
  length, tally, tally-zero, weight-le-tally, Bool-cases, arith, refl, ◌%◌,
}
use flux_foundry.Flow.WhenAll.{
  Kind, WhenAll, Outcome, all_values, any_failed, Branch, unlaunched, running, emplacing, canceling,
  noting, counting, last, delivering, finished, Submitter, created, launching, starting, dropping,
  withdrawing, marking, sealing, checking, resuming, returned, emplace_step, submit_step, cancel,
  cancel_upto, on_error, all_bps_present,
}
use flux_foundry.Flow.WhenAll.System.{
  System, start, submits, finishes, accesses, cancels, Reach, initial, later, submit_access,
  branch_access,
}
use flux_foundry.Flow.WhenAll.Inv.{Inv, at_work, entitled, is_sealed, has_noted, Agrees, AllAgree}
use flux_foundry.Flow.WhenAll.Moves.{
  emplacing-Inv, canceling-Inv, noting-Inv, counting-Inv, last-Inv, delivering-Inv, finishes-Inv,
  same-Inv, frontier-le,
}
use flux_foundry.Flow.WhenAll.Submits.{
  created-Inv, launching-Inv, launched_all-Inv, throwing-Inv, dropping-Inv, withdrawing-Inv,
  marking-Inv, sealing-Inv, checking-Inv, cancels-Inv, resuming-Inv, started-Inv,
}

start-Inv : (n : ℕ) → Inv n (start n)
start-Inv n = record {
  count = ground (arith, tally-zero at_work n (λ i. unlaunched) (λ i. refl));
  flags = refl;
  bounded = tt;
  ahead = λ i h. refl;
  behind = λ i h. absurd (omega arith);
  one_right = ground (arith, tally-zero entitled n (λ i. unlaunched) (λ i. refl));
  noted = λ i h. ground arith;
  stored = λ i. tt;
  first = inl refl;
  branch_agrees = λ i. tt;
  submitter_agrees = tt;
  resumed_agree = tt;
}

module _ {n : ℕ} {s : System} (inv : Inv n s) (small : n < 2 ^ 60) (kind : Kind) where
  submit-Inv :
      (packs : ℕ → Bool) (throws : Bool) (c : Submitter)
      → s.submitter ≡ c
      → Inv n (submit_access kind n packs throws s)
  unfolding submit_step
  submit-Inv packs throws created e = rw e (created-Inv inv small (all_bps_present n packs) e)
  submit-Inv packs throws (launching k) e = elim (Bool-cases (ltb k n)) [
    | inl more ↦ rw (e, more) (launching-Inv inv small k e (ground arith))
    | inr all ↦ rw (e, all) (launched_all-Inv inv small k e (ground arith))
  ]
  submit-Inv packs true (starting k) e = rw e (throwing-Inv inv small k kind e)
  submit-Inv packs false (starting k) e = rw e (started-Inv inv small k e)
  submit-Inv packs throws (dropping k) e = rw e (dropping-Inv inv small k e)
  submit-Inv packs throws withdrawing e = rw e (withdrawing-Inv inv small kind e)
  submit-Inv packs throws marking e = rw e (marking-Inv inv small e)
  submit-Inv packs throws sealing e = rw e (sealing-Inv inv small e)
  submit-Inv packs throws checking e = rw e (checking-Inv inv small e)
  submit-Inv packs throws (resuming o) e = rw e (resuming-Inv inv small o e)
  submit-Inv packs throws (returned ok) e = rw e (rw e at inv)

  branch-Inv : (i : ℕ) (b : Branch) → s.branch i ≡ b → Inv n (branch_access kind n s i)
  unfolding emplace_step
  branch-Inv i (emplacing bad) e =
      rw e
        (emplacing-Inv inv small i bad (if bad then on_error kind else counting) e (ground arith))
  branch-Inv i canceling e = rw e (canceling-Inv inv small i e)
  branch-Inv i noting e = rw e (noting-Inv inv small i e)
  branch-Inv i counting e = rw e (counting-Inv inv small i e)
  branch-Inv i last e = rw e (last-Inv inv small i e)
  branch-Inv i (delivering o) e = rw e (delivering-Inv inv small i o e)
  branch-Inv i unlaunched e = rw e (same-Inv inv small i unlaunched e)
  branch-Inv i running e = rw e (same-Inv inv small i running e)
  branch-Inv i finished e = rw e (same-Inv inv small i finished e)

  cancel-Inv : Inv n (record s { state = cancel n s.state })
  unfolding cancel
  cancel-Inv = elim (Bool-cases (s.state.fired % 2 == 1)) [
    | inl marked ↦ rw marked inv
    | inr unmarked ↦ rw unmarked (cancels-Inv inv small (cancel_upto n s.state.controllers))
  ]

pub Reach-Inv :
    {kind : Kind} {n : ℕ} {packs : ℕ → Bool} {s : System}
    → n < 2 ^ 60
    → Reach kind n packs s
    → Inv n s
Reach-Inv {n = n} small initial = start-Inv n
Reach-Inv {kind = kind} {packs = packs} small (later {s = s} r (submits throws)) =
    submit-Inv (Reach-Inv small r) small kind packs throws s.submitter refl
Reach-Inv small (later r (finishes i bad e)) = finishes-Inv (Reach-Inv small r) small i bad e
Reach-Inv {kind = kind} small (later {s = s} r (accesses i)) =
    branch-Inv (Reach-Inv small r) small kind i (s.branch i) refl
Reach-Inv {kind = kind} small (later r cancels) = cancel-Inv (Reach-Inv small r) small kind

-- Where every launched branch has finished, a weight that such branches do not have sums to 0.
at_rest :
    {n : ℕ} {s : System} (weight : Branch → ℕ)
    → weight finished ≡ 0
    → weight unlaunched ≡ 0
    → n < 2 ^ 60
    → Inv n s
    → ((i : ℕ) → i < n → s.branch i ≡ finished)
    → tally weight n s.branch ≡ 0
at_rest {n = n} {s = s} weight f u small inv all = tally-zero weight n s.branch (λ i.
    elim (dec_lt i n) [
      | yes lt ↦ rw (all i lt) f
      | no ge ↦ rw (inv.ahead i (omega (arith, frontier-le inv small))) u
    ])

-- No double resume and none after a failure: in every reachable state of fewer than 2 ^ 60 branches
-- the resumes done and the threads entitled to one are together at most 1, and they are 0 until
-- `submit` has set the success flag, so in every run in which it returns an error.
pub resumes_at_most_once :
    {kind : Kind} {n : ℕ} {packs : ℕ → Bool} {s : System}
    → n < 2 ^ 60
    → Reach kind n packs s
    → length s.resumed + tally entitled n s.branch ≤ (if is_sealed s.submitter then 1 else 0)
resumes_at_most_once small r = let inv = Reach-Inv small r in ground (arith, inv.one_right)

-- No lost resume: when `submit` has returned success and every one of fewer than 2 ^ 60 branches has
-- finished, in whatever order, the awaitable has been resumed exactly once.
pub resumes_in_the_end :
    {kind : Kind} {n : ℕ} {packs : ℕ → Bool} {s : System}
    → n < 2 ^ 60
    → Reach kind n packs s
    → s.submitter ≡ returned true
    → ((i : ℕ) → i < n → s.branch i ≡ finished)
    → length s.resumed ≡ 1
resumes_in_the_end {n = n} {s = s} small r done all =
    let inv = Reach-Inv small r in
    ground (
      arith,
      inv.one_right,
      inv.count,
      inv.flags,
      at_rest at_work refl refl small inv all,
      at_rest entitled refl refl small inv all,
    )

-- What an outcome says of the branches.
abbrev pub Explains : ℕ → WhenAll → Outcome → Type 0
Explains n s all_values = (i : ℕ) → i < n → s.data_errors i ≡ false
Explains n s (any_failed j) = (j < n) × (s.data_errors j ≡ true)

-- The result is right: when the awaitable of fewer than 2 ^ 60 branches has been resumed, every
-- branch has stored its result; the awaitable got the values where all of these are values, and
-- else the index of a branch whose result is an error.
pub resumed_with_result :
    {kind : Kind} {n : ℕ} {packs : ℕ → Bool} {s : System} {o : Outcome} {os : List Outcome}
    → n < 2 ^ 60
    → Reach kind n packs s
    → s.resumed ≡ o ∷ os
    → ((i : ℕ) → i < n → has_noted (s.branch i) ≡ true) × Explains n s.state o
resumed_with_result {n = n} {s = s} {o = o} {os = os} small r e =
    (stored, explain o (subst (AllAgree n s.state.failed) e inv.resumed_agree).0)
  where
    inv : Inv n s
    inv = Reach-Inv small r

    stored : (i : ℕ) → i < n → has_noted (s.branch i) ≡ true
    stored i lt =
        ground
          (arith, inv.one_right, inv.count, inv.behind i, weight-le-tally at_work n s.branch i lt)

    explain : (o : Outcome) → Agrees n s.state.failed o → Explains n s.state o
    explain all_values a = λ i lt. ground (arith, stored i lt, inv.noted i)
    explain (any_failed j) a = ground (arith, inv.first)
