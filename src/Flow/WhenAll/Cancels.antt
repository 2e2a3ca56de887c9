-- ===== src/Flow/WhenAll/Cancels.antt =====
-- A failing branch of the cancellable `when_all` asks every branch to stop.
use flux_foundry.Prelude.{ℕ, ◌<◌, Bool, true, ◌≡◌, ◌≢◌, arith, refl, update}
use flux_foundry.Flow.WhenAll.{
  normal, Branch, emplacing, noting, Submitter, emplace_step, submit_step, cancel,
}
use flux_foundry.Flow.WhenAll.System.{
  System, submits, finishes, accesses, cancels, Reach, initial, later, submit_access, branch_access,
}

abbrev AllCanceled : ℕ → System → Type 0
AllCanceled n s = (j : ℕ) → j < n → s.state.controllers j ≡ true

record Asked (n : ℕ) (s : System) : Type 0 where
  before : (i : ℕ) → s.branch i ≡ noting → AllCanceled n s
  after : s.state.failed ≢ n → AllCanceled n s

module _ {n : ℕ} {s : System} (asked : Asked n s) where
  submit-Asked :
      (packs : ℕ → Bool) (throws : Bool) (c : Submitter)
      → s.submitter ≡ c
      → Asked n (submit_access normal n packs throws s)
  unfolding submit_step
  submit-Asked packs throws c e = record {
    before = λ i h j lt. ground (arith, asked.before i, asked.before i (ground arith) j lt);
    after = λ h j lt. ground (arith, asked.after (ground arith) j lt);
  }

  -- The facts at one controller, for a tactic.
  before_at : (i j : ℕ) → j < n → s.branch i ≡ noting → s.state.controllers j ≡ true
  before_at i j lt h = asked.before i h j lt

  after_at : (j : ℕ) → j < n → s.state.failed ≢ n → s.state.controllers j ≡ true
  after_at j lt h = asked.after h j lt

  branch-Asked : (i : ℕ) (b : Branch) → s.branch i ≡ b → Asked n (branch_access normal n s i)
  unfolding emplace_step
  branch-Asked i b e = record {
    before = λ k h j lt. ground (arith, before_at k j lt, before_at i j lt);
    after = λ h j lt. ground (arith, before_at i j lt, after_at j lt);
  }

  finish-Asked :
      (i : ℕ) (bad : Bool) → Asked n (record s { branch = update s.branch i (emplacing bad) })
  finish-Asked i bad = record {
    before = λ k h j lt. asked.before k (ground arith) j lt;
    after = asked.after;
  }

  cancel-Asked : Asked n (record s { state = cancel n s.state })
  unfolding cancel
  cancel-Asked = record {
    before = λ k h j lt. ground (arith, asked.before k h j lt);
    after = λ h j lt. ground (arith, asked.after (ground arith) j lt);
  }

Reach-Asked : {n : ℕ} {packs : ℕ → Bool} {s : System} → Reach normal n packs s → Asked n s
Reach-Asked initial = record { before = λ i h. ground arith; after = λ h. absurd (h refl) }
Reach-Asked {packs = packs} (later {s = s} r (submits throws)) =
    submit-Asked (Reach-Asked r) packs throws s.submitter refl
Reach-Asked (later r (finishes i bad e)) = finish-Asked (Reach-Asked r) i bad
Reach-Asked (later {s = s} r (accesses i)) = branch-Asked (Reach-Asked r) i (s.branch i) refl
Reach-Asked (later r cancels) = cancel-Asked (Reach-Asked r)

-- A failure stops the rest: in every reachable state of the cancellable `when_all` in which a failed
-- branch is noted, every branch has been asked to cancel, those that are launched later included.
pub failure_cancels :
    {n : ℕ} {packs : ℕ → Bool} {s : System}
    → Reach normal n packs s
    → s.state.failed ≢ n
    → (j : ℕ) → j < n
    → s.state.controllers j ≡ true
failure_cancels r h = (Reach-Asked r).after h
