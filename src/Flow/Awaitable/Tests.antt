-- ===== src/Flow/Awaitable/Tests.antt =====
-- An awaitable that is submitted and completed with 7.
use flux_foundry.Prelude.{ℕ, ◌≡◌, ◌==◌, if◌then◌else◌, Bool, true, false, [], ◌∷◌, inr, arith, refl}
use flux_foundry.Flow.Awaitable.{
  Awaitable, waiting, resume, cancel, provide_cancel_handler, submit_begin,
}
use flux_foundry.Flow.Awaitable.Protocol.{
  Life, provide, submit, completion, Reach, initial, later, start, holders,
}
use flux_foundry.Flow.Awaitable.Laws.{counted_references, first_wins}

abbrev quiet : ℕ → Bool
quiet r = false

abbrev provided_life : Life ℕ
provided_life = record start { object = provide_cancel_handler start.object; handlers = 1 }

abbrev waiting_object : Awaitable ℕ
waiting_object = record { status = waiting; refcount = 3; delivered = []; cancels = 0; deletes = 0 }

abbrev submitted_life : Life ℕ
submitted_life = record provided_life { object = waiting_object; submitting = true }

abbrev completed_life : Life ℕ
completed_life = record submitted_life { object = resume quiet 9 waiting_object 7; owned = false }

completed-Reach : Reach quiet 9 3 completed_life
unfolding provide_cancel_handler submit_begin
completed-Reach =
    later (later (later initial (provide refl)) (submit refl refl refl)) (completion 7 (inr refl))

counted_references_example :
    (completed_life.object.refcount ≡ holders completed_life)
    × (completed_life.object.deletes ≡ (if holders completed_life == 0 then 1 else 0))
counted_references_example =
    counted_references {R = ℕ} {throws = quiet} {exception = 9} {n = 3} {l = completed_life}
      (omega arith) completed-Reach

first_wins_example :
    ((resume quiet 9 waiting_object 7).delivered ≡ 7 ∷ [])
    × ((resume quiet 9 waiting_object 7).cancels ≡ 0)
    × (cancel quiet 9 (resume quiet 9 waiting_object 7) 8 ≡ resume quiet 9 waiting_object 7)
    × ((cancel quiet 9 waiting_object 8).delivered ≡ 8 ∷ [])
    × ((cancel quiet 9 waiting_object 8).cancels ≡ 1)
    × (resume quiet 9 (cancel quiet 9 waiting_object 8) 7 ≡ cancel quiet 9 waiting_object 8)
first_wins_example = first_wins quiet 9 7 8 waiting_object refl
