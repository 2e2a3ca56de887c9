-- ===== src/Flow/Awaitable/Laws.antt =====
-- What the users of an awaitable can rely on.
use native.Mathlib.Numerals.{add-one}
use flux_foundry.Prelude.{
  ℕ, suc, ◌+◌, ◌^◌, ◌<◌, ◌≡◌, Bool, [], ◌∷◌, ◌++◌, if◌then◌else◌, ◌==◌, arith,
}
use flux_foundry.Flow.Awaitable.{
  Awaitable, waiting, done, retain, release, resume, cancel, submit_begin, submit_end,
  provide_cancel_handler, notify_cancel_handler_dropped,
}
use flux_foundry.Flow.Awaitable.Protocol.{
  Life, Step, provide, drop, submit, refused, submitted, submit_fails, backend_retain,
  backend_release, completion, cancellation, Reach, Inv, holders, initial, later, Step-Inv,
  start-Inv,
}

pub Reach-Inv :
    {R : Type 0} {throws : R → Bool} {exception : R} {n : ℕ} {l : Life R}
    → n < 2 ^ 62
    → Reach throws exception n l
    → Inv n l
Reach-Inv small initial = start-Inv
Reach-Inv {n = suc n} small (later r st) =
    rw (add-one n) at (Step-Inv (omega arith) (Reach-Inv (omega arith) r) st)

-- No leak, no use after free, no double free: in every state reached in fewer than 2 ^ 62 steps the
-- reference count is the number of the references that the parties hold, the object has not been
-- deleted while there is one, and it has been deleted exactly once when there is none.
pub counted_references :
    {R : Type 0} {throws : R → Bool} {exception : R} {n : ℕ} {l : Life R}
    → n < 2 ^ 62
    → Reach throws exception n l
    → (l.object.refcount ≡ holders l) × (l.object.deletes ≡ (if holders l == 0 then 1 else 0))
counted_references small r = let inv = Reach-Inv small r in ground (arith, inv.counted, inv.deleted)

-- The next step runs on one outcome only: once the status is `done`, every further step of any party
-- leaves the status, the delivered results and the calls of the derived `cancel` as they are.
pub done_is_final :
    {R : Type 0} {throws : R → Bool} {exception : R} {l m : Life R}
    → Step throws exception l m
    → l.object.status ≡ done
    → (m.object.status ≡ done)
      × (m.object.delivered ≡ l.object.delivered)
      × (m.object.cancels ≡ l.object.cancels)
unfolding retain release resume cancel submit_begin submit_end provide_cancel_handler
    notify_cancel_handler_dropped
done_is_final (provide o) d = ground arith
done_is_final (drop h) d = ground arith
done_is_final (submit o s e) d = ground arith
done_is_final (refused o s e) d = ground arith
done_is_final (submitted s) d = ground arith
done_is_final (submit_fails code ne s w) d = ground arith
done_is_final (backend_retain s) d = ground arith
done_is_final (backend_release h) d = ground arith
done_is_final (completion r h) d = ground arith
done_is_final (cancellation r h) d = ground arith

-- A completion and a cancellation race for one transition: from `waiting` the first of them delivers
-- its result, after which the exception if the next step throws, and the second changes nothing; only
-- a cancellation that wins calls the derived `cancel`.
pub first_wins :
    {R : Type 0} (throws : R → Bool) (exception r e : R) (a : Awaitable R)
    → a.status ≡ waiting
    → let first = resume throws exception a r in
      let second = cancel throws exception a e in
      (first.delivered ≡ a.delivered ++ (if throws r then r ∷ exception ∷ [] else r ∷ []))
      × (first.cancels ≡ a.cancels)
      × (cancel throws exception first e ≡ first)
      × (second.delivered ≡ a.delivered ++ (if throws e then e ∷ exception ∷ [] else e ∷ []))
      × (second.cancels ≡ a.cancels + 1)
      × (resume throws exception second r ≡ second)
unfolding resume cancel release
first_wins throws exception r e a w = ground arith
