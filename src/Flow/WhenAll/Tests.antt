-- ===== src/Flow/WhenAll/Tests.antt =====
-- Runs of `when_all` with one branch.
use flux_foundry.Prelude.{
  ℕ, ◌≡◌, ◌≤◌, ◌<◌, ◌+◌, ◌≢◌, if◌then◌else◌, Bool, true, false, [], length, tally, update, arith,
  refl,
}
use flux_foundry.Flow.WhenAll.{normal, all_values, emplacing, finished, submit_step, emplace_step}
use flux_foundry.Flow.WhenAll.System.{
  System, start, submits, finishes, accesses, Reach, initial, later, submit_access, branch_access,
}
use flux_foundry.Flow.WhenAll.Inv.{entitled, is_sealed, has_noted}
use flux_foundry.Flow.WhenAll.Laws.{
  resumes_at_most_once, resumes_in_the_end, resumed_with_result, Explains,
}
use flux_foundry.Flow.WhenAll.Cancels.{failure_cancels}

abbrev present : ℕ → Bool
present i = true

abbrev submits_once : System → System
submits_once = submit_access normal 1 present false

abbrev accesses_once : System → System
accesses_once s = branch_access normal 1 s 0

abbrev launched_run : System
launched_run = submits_once (submits_once (submits_once (start 1)))

abbrev returned_run : System
returned_run = submits_once (submits_once launched_run)

abbrev emplaces : Bool → System → System
emplaces bad s = record s { branch = update s.branch 0 (emplacing bad) }

-- The branch brings a value after `submit` has returned.
abbrev value_run : System
value_run =
    accesses_once (accesses_once (accesses_once (accesses_once (emplaces false returned_run))))

-- The branch brings an error before the success flag is set.
abbrev failing_run : System
failing_run = accesses_once (accesses_once (accesses_once (emplaces true launched_run)))

launched-Reach : Reach normal 1 present launched_run
launched-Reach = later (later (later initial (submits false)) (submits false)) (submits false)

value-Reach : Reach normal 1 present value_run
unfolding submit_step
value-Reach =
    later
      (later
        (later
          (later
            (later (later (later launched-Reach (submits false)) (submits false))
              (finishes 0 false refl))
            (accesses 0))
          (accesses 0))
        (accesses 0))
      (accesses 0)

failing-Reach : Reach normal 1 present failing_run
unfolding submit_step
failing-Reach =
    later (later (later (later launched-Reach (finishes 0 true refl)) (accesses 0)) (accesses 0))
      (accesses 0)

resumes_at_most_once_example :
    length value_run.resumed + tally entitled 1 value_run.branch
    ≤ (if is_sealed value_run.submitter then 1 else 0)
resumes_at_most_once_example =
    resumes_at_most_once {kind = normal} {n = 1} {packs = present} {s = value_run} (omega arith)
      value-Reach

only_finished : (i : ℕ) → i < 1 → value_run.branch i ≡ finished
unfolding submit_step emplace_step
only_finished i lt = ground arith

resumes_in_the_end_example : length value_run.resumed ≡ 1
unfolding submit_step emplace_step
resumes_in_the_end_example =
    resumes_in_the_end {kind = normal} {n = 1} {packs = present} {s = value_run} (omega arith)
      value-Reach refl only_finished

resumed_with_result_example :
    ((i : ℕ) → i < 1 → has_noted (value_run.branch i) ≡ true)
    × Explains 1 value_run.state all_values
unfolding submit_step emplace_step
resumed_with_result_example =
    resumed_with_result {kind = normal} {n = 1} {packs = present} {s = value_run} {o = all_values}
      {os = []} (omega arith) value-Reach refl

failed_differs : failing_run.state.failed ≢ 1
unfolding submit_step emplace_step
failed_differs e = omega (arith, e)

failure_cancels_example : failing_run.state.controllers 0 ≡ true
failure_cancels_example =
    failure_cancels {n = 1} {packs = present} {s = failing_run} failing-Reach failed_differs 0
      (omega arith)
