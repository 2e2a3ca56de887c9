-- ===== src/Flow/WhenAny/Tests.antt =====
-- Runs of `when_any` with one branch.
use flux_foundry.Prelude.{ℕ, ◌≡◌, ◌≤◌, ◌<◌, ◌⊎◌, Bool, true, false, [], length, update, arith, refl}
use flux_foundry.Flow.WhenAll.{normal}
use flux_foundry.Flow.WhenAny.{
  all_failed, unlaunched, emplacing, finished, submit_step, emplace_step,
}
use flux_foundry.Flow.WhenAny.System.{
  System, start, submits, finishes, accesses, Reach, initial, later, submit_access, branch_access,
}
use flux_foundry.Flow.WhenAny.Laws.{
  any_resumes_at_most_once, any_resumes_in_the_end, any_resumed_with_result, any_failed_submit,
  Explains,
}

abbrev present : ℕ → Bool
present i = true

abbrev missing : ℕ → Bool
missing i = false

abbrev submits_once : System → System
submits_once = submit_access normal 1 present false

abbrev submits_missing : System → System
submits_missing = submit_access normal 1 missing false

abbrev accesses_once : System → System
accesses_once s = branch_access normal 1 s 0

abbrev launched_run : System
launched_run = submits_once (submits_once (submits_once (start normal 1)))

abbrev returned_run : System
returned_run = submits_once (submits_once (submits_once launched_run))

-- The branch brings an error after `submit` has returned.
abbrev failing_run : System
failing_run = accesses_once (
    accesses_once (
      accesses_once (
        accesses_once
          (record returned_run { branch = update returned_run.branch 0 (emplacing true) }))))

-- No blueprint is present.
abbrev closed_run : System
closed_run =
    submits_missing
      (submits_missing (submits_missing (submits_missing (submits_missing (start normal 1)))))

returned-Reach : Reach normal 1 present returned_run
returned-Reach =
    later
      (later
        (later (later (later (later initial (submits false)) (submits false)) (submits false))
          (submits false))
        (submits false))
      (submits false)

failing-Reach : Reach normal 1 present failing_run
unfolding submit_step
failing-Reach =
    later
      (later (later (later (later returned-Reach (finishes 0 true refl)) (accesses 0)) (accesses 0))
        (accesses 0))
      (accesses 0)

closed-Reach : Reach normal 1 missing closed_run
closed-Reach =
    later
      (later (later (later (later initial (submits false)) (submits false)) (submits false))
        (submits false))
      (submits false)

any_resumes_at_most_once_example : length failing_run.resumed ≤ 1
any_resumes_at_most_once_example =
    any_resumes_at_most_once {kind = normal} {n = 1} {packs = present} {s = failing_run}
      (omega arith) failing-Reach

only_finished :
    (i : ℕ) → i < 1 → (failing_run.branch i ≡ unlaunched) ⊎ (failing_run.branch i ≡ finished)
unfolding submit_step emplace_step
only_finished i lt = ground arith

any_resumes_in_the_end_example : length failing_run.resumed ≡ 1
unfolding submit_step emplace_step
any_resumes_in_the_end_example =
    any_resumes_in_the_end {kind = normal} {n = 1} {packs = present} {s = failing_run} (omega arith)
      failing-Reach refl only_finished

any_resumed_with_result_example : Explains 1 failing_run all_failed
unfolding submit_step emplace_step
any_resumed_with_result_example =
    any_resumed_with_result {kind = normal} {n = 1} {packs = present} {s = failing_run}
      {o = all_failed} {os = []} (omega arith) failing-Reach refl

any_failed_submit_example :
    ((i : ℕ) → i < 1 → closed_run.branch i ≡ unlaunched) × (length closed_run.resumed ≡ 0)
unfolding submit_step
any_failed_submit_example =
    any_failed_submit {kind = normal} {n = 1} {packs = missing} {s = closed_run} (omega arith)
      closed-Reach refl
