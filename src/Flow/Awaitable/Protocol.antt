-- ===== src/Flow/Awaitable/Protocol.antt =====
-- The life of one awaitable: an async node creates it, provides its cancel handler and submits it,
-- while a backend completes it, a controller cancels it and drops its handler, in any order.
use flux_foundry.Prelude.{
  ℕ, zero, suc, ◌+◌, ◌-◌, ◌^◌, ◌≤◌, ◌<◌, ◌≡◌, ◌≢◌, ◌⊎◌, Bool, true, false, some, List, [], ◌==◌,
  if◌then◌else◌, arith,
}
use flux_foundry.Flow.Awaitable.{
  Awaitable, WaitState, idle, waiting, done, fresh, retain, release, resume, cancel, submit_begin,
  submit_end, provide_cancel_handler, notify_cancel_handler_dropped,
}

-- The object and who holds a reference to it: its owner until it is resumed or its submission
-- fails, the controller for the handlers that it has, `submit_async` while `submit` runs, and the
-- backend for the references that it took.
pub record Life (R : Type 0) : Type 0 where
  pub object : Awaitable R
  pub owned : Bool
  pub handlers : ℕ
  pub submitting : Bool
  pub backend : ℕ

module _ {R : Type 0} where
  abbrev pub start : Life R
  start = record { object = fresh; owned = true; handlers = 0; submitting = false; backend = 0 }

-- The owner's reference is given up by the resumption that wins.
abbrev pub owned_after : WaitState → Bool → Bool
owned_after waiting owned = false
owned_after s owned = owned

-- Each party acts only while it holds a reference. A `submit` that returns an error has not let the
-- backend resume the object, and its caller gives up the owner's reference (`awaitable.release()`).
pub data Step {R : Type 0} (throws : R → Bool) (exception : R) (l : Life R) : Life R → Type 0 where
  provide :
      l.owned ≡ true
      → Step throws exception l
          (record l { object = provide_cancel_handler l.object; handlers = l.handlers + 1 })
  drop :
      0 < l.handlers
      → Step throws exception l
          (record l { object = notify_cancel_handler_dropped l.object; handlers = l.handlers - 1 })
  submit :
      {a : Awaitable R}
      → l.owned ≡ true
      → l.submitting ≡ false
      → submit_begin l.object ≡ some a
      → Step throws exception l (record l { object = a; submitting = true })
  -- The registration of the cancel handler met a cancellation: `awaitable.release()` unsubmitted.
  refused :
      l.owned ≡ true
      → l.submitting ≡ false
      → l.object.status ≡ idle
      → Step throws exception l (record l { object = release l.object; owned = false })
  submitted :
      l.submitting ≡ true
      → Step throws exception l
          (record l { object = (submit_end l.object 0).0; submitting = false })
  submit_fails :
      (code : ℕ)
      → code ≢ 0
      → l.submitting ≡ true
      → l.object.status ≡ waiting
      → Step throws exception l (record l {
        object = release (submit_end l.object code).0;
        submitting = false;
        owned = false;
      })
  backend_retain :
      l.submitting ≡ true
      → Step throws exception l (record l { object = retain l.object; backend = l.backend + 1 })
  backend_release :
      0 < l.backend
      → Step throws exception l (record l { object = release l.object; backend = l.backend - 1 })
  completion :
      (r : R)
      → (0 < l.backend) ⊎ (l.submitting ≡ true)
      → Step throws exception l (record l {
        object = resume throws exception l.object r;
        owned = owned_after l.object.status l.owned;
      })
  cancellation :
      (r : R)
      → 0 < l.handlers
      → Step throws exception l (record l {
        object = cancel throws exception l.object r;
        owned = owned_after l.object.status l.owned;
      })

pub data Reach {R : Type 0} (throws : R → Bool) (exception : R) : ℕ → Life R → Type 0 where
  initial : Reach throws exception zero start
  later :
      {n : ℕ} {l m : Life R}
      → Reach throws exception n l
      → Step throws exception l m
      → Reach throws exception (suc n) m

abbrev pub one_if : Bool → ℕ
one_if true = 1
one_if false = 0

abbrev pub holders : {R : Type 0} → Life R → ℕ
holders l = one_if l.owned + l.handlers + one_if l.submitting + l.backend

-- The status against the owner and the results: the next step runs when the status becomes `done`.
abbrev pub Consistent : {R : Type 0} → WaitState → Bool → Bool → List R → Type 0
Consistent idle owned submitting out = (out ≡ []) × (submitting ≡ false)
Consistent waiting owned submitting out = (out ≡ []) × (owned ≡ true)
Consistent done owned submitting out = (out ≢ []) × (owned ≡ false)

pub record Inv {R : Type 0} (n : ℕ) (l : Life R) : Type 0 where
  pub few : l.object.refcount ≤ n + 1
  pub counted : l.object.refcount ≡ holders l
  pub deleted : l.object.deletes ≡ (if l.object.refcount == 0 then 1 else 0)
  pub consistent : Consistent l.object.status l.owned l.submitting l.object.delivered

pub start-Inv : {R : Type 0} → Inv {R = R} 0 start
start-Inv = ground arith

module _ {R : Type 0} {throws : R → Bool} {exception : R} where
  pub Step-Inv :
      {n : ℕ} {l m : Life R} → n < 2 ^ 62 → Inv n l → Step throws exception l m → Inv (n + 1) m
  unfolding retain release resume cancel submit_begin submit_end provide_cancel_handler
      notify_cancel_handler_dropped
  Step-Inv small inv (provide o) = ground arith
  Step-Inv small inv (drop h) = ground arith
  Step-Inv small inv (submit o s e) = ground arith
  Step-Inv small inv (refused o s e) = ground arith
  Step-Inv small inv (submitted s) = ground arith
  Step-Inv small inv (submit_fails code ne s w) = ground arith
  Step-Inv small inv (backend_retain s) = ground arith
  Step-Inv small inv (backend_release h) = ground arith
  Step-Inv small inv (completion r h) = ground arith
  Step-Inv small inv (cancellation r h) = ground arith
