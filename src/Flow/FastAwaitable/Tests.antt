-- ===== src/Flow/FastAwaitable/Tests.antt =====
-- A fast awaitable that its backend resumes with 7 inside `submit`.
use flux_foundry.Prelude.{
  ℕ, ◌≡◌, ◌≤◌, ◌+◌, ◌==◌, if◌then◌else◌, Bool, false, true, length, inl, refl,
}
use flux_foundry.Flow.FastAwaitable.{submit_begin, submit_end, resume}
use flux_foundry.Flow.FastAwaitable.Laws.{
  Life, submitting, submitted, submits, succeeds, resumes, Reach, initial, later, start, owner,
  submission, fast_references,
}

abbrev quiet : ℕ → Bool
quiet r = false

abbrev in_submit : Life ℕ
in_submit = record start { object = submit_begin start.object; phase = submitting }

abbrev resumed_life : Life ℕ
resumed_life = record in_submit { object = resume quiet 9 in_submit.object 7; resumed = true }

abbrev over : Life ℕ
over = record resumed_life { object = (submit_end resumed_life.object 0).0; phase = submitted }

over-Reach : Reach quiet 9 over
over-Reach =
    later (later (later initial (submits refl)) (resumes 7 (inl refl) refl)) (succeeds refl)

fast_references_example :
    (over.object.refcount ≡ owner over.phase over.resumed + submission over.phase)
    × (over.object.deletes
        ≡ (if owner over.phase over.resumed + submission over.phase == 0 then 1 else 0))
    × (length over.object.delivered ≤ (if over.resumed then 2 else 0))
fast_references_example =
    fast_references {R = ℕ} {throws = quiet} {exception = 9} {l = over} over-Reach
