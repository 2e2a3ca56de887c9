-- ===== src/Flow/FastAwaitable/Laws.antt =====
-- The life of a fast awaitable under its contract: the backend of a `submit` that succeeds resumes
-- it once, and that of one that fails never does.
use flux_foundry.Prelude.{
  ℕ, ◌+◌, ◌≤◌, ◌≡◌, ◌≢◌, ◌⊎◌, refl, Bool, true, false, [], ◌∷◌, ◌==◌, if◌then◌else◌, length,
  length-append, arith,
}
use flux_foundry.Flow.FastAwaitable.{
  FastAwaitable, fresh, release, submit_begin, submit_end, resume,
}

-- Where the operation stands: not submitted, in `submit`, and after it.
pub data Phase : Type 0 where
  created : Phase
  submitting : Phase
  submitted : Phase
  failed : Phase

-- `resumed` tells whether the backend has resumed the object.
pub record Life (R : Type 0) : Type 0 where
  pub object : FastAwaitable R
  pub phase : Phase
  pub resumed : Bool

abbrev pub start : {R : Type 0} → Life R
start = record { object = fresh; phase = created; resumed = false }

pub data Step {R : Type 0} (throws : R → Bool) (exception : R) (l : Life R) : Life R → Type 0 where
  submits :
      l.phase ≡ created
      → Step throws exception l (record l { object = submit_begin l.object; phase = submitting })
  succeeds :
      l.phase ≡ submitting
      → Step throws exception l (record l { object = (submit_end l.object 0).0; phase = submitted })
  -- The async node then gives up the reference of the owner.
  fails :
      (code : ℕ)
      → code ≢ 0
      → l.phase ≡ submitting
      → l.resumed ≡ false
      → Step throws exception l
          (record l { object = release (submit_end l.object code).0; phase = failed })
  resumes :
      (r : R)
      → (l.phase ≡ submitting) ⊎ (l.phase ≡ submitted)
      → l.resumed ≡ false
      → Step throws exception l
          (record l { object = resume throws exception l.object r; resumed = true })

pub data Reach {R : Type 0} (throws : R → Bool) (exception : R) : Life R → Type 0 where
  initial : Reach throws exception start
  later :
      {l m : Life R}
      → Reach throws exception l
      → Step throws exception l m
      → Reach throws exception m

-- The references held: the owner's until a resumption or a failure, and `submit_async`'s own.
abbrev pub owner : Phase → Bool → ℕ
owner failed resumed = 0
owner phase resumed = if resumed then 0 else 1

abbrev pub submission : Phase → ℕ
submission submitting = 1
submission phase = 0

record Inv {R : Type 0} (l : Life R) : Type 0 where
  counted : l.object.refcount ≡ owner l.phase l.resumed + submission l.phase
  deleted : l.object.deletes ≡ (if l.object.refcount == 0 then 1 else 0)
  delivered : length l.object.delivered ≤ (if l.resumed then 2 else 0)
  begun : l.phase ≡ created → l.resumed ≡ false

module _ {R : Type 0} {throws : R → Bool} {exception : R} {l : Life R} (inv : Inv l) where
  Step-Inv : {m : Life R} → Step throws exception l m → Inv m
  unfolding submit_begin submit_end release resume
  Step-Inv (submits p) = record {
    counted = ground (arith, inv.counted, inv.begun);
    deleted = ground (arith, inv.counted, inv.deleted, inv.begun);
    delivered = ground (arith, inv.delivered);
    begun = λ h. ground (arith, inv.begun);
  }
  Step-Inv (succeeds p) = record {
    counted = ground (arith, inv.counted, inv.begun);
    deleted = ground (arith, inv.counted, inv.deleted, inv.begun);
    delivered = ground (arith, inv.delivered);
    begun = λ h. ground (arith, inv.begun);
  }
  Step-Inv (fails code ne p f) = record {
    counted = ground (arith, inv.counted, inv.begun);
    deleted = ground (arith, inv.counted, inv.deleted, inv.begun);
    delivered = ground (arith, inv.delivered);
    begun = λ h. ground (arith, inv.begun);
  }
  Step-Inv (resumes r p f) = record {
    counted = ground (arith, inv.counted, inv.begun);
    deleted = ground (arith, inv.counted, inv.deleted, inv.begun);
    delivered = ground (
      arith,
      inv.delivered,
      length-append l.object.delivered (r ∷ []),
      length-append l.object.delivered (r ∷ exception ∷ []),
    );
    begun = λ h. ground (arith, inv.begun);
  }

Reach-Inv :
    {R : Type 0} {throws : R → Bool} {exception : R} {l : Life R} → Reach throws exception l → Inv l
Reach-Inv initial = record {
  counted = refl;
  deleted = refl;
  delivered = omega arith;
  begun = λ h. refl;
}
Reach-Inv (later r st) = Step-Inv (Reach-Inv r) st

-- No leak and no use after free: in every state that the contract allows the count is the number of
-- the references held, the object has been deleted exactly once if there is none and else not at all,
-- and the next step was called with one result at most, or with a second one, the exception.
pub fast_references :
    {R : Type 0} {throws : R → Bool} {exception : R} {l : Life R}
    → Reach throws exception l
    → (l.object.refcount ≡ owner l.phase l.resumed + submission l.phase)
      × (l.object.deletes ≡ (if owner l.phase l.resumed + submission l.phase == 0 then 1 else 0))
      × (length l.object.delivered ≤ (if l.resumed then 2 else 0))
fast_references r = let inv = Reach-Inv r in ground (arith, inv.counted, inv.deleted, inv.delivered)
