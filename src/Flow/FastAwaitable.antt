-- ===== src/Flow/FastAwaitable.antt =====
-- `fast_awaitable_base` of flow/flow_awaitable.h, the awaitable that cannot be cancelled: its
-- reference count and its resumption. The result type `R`, the next step, which may throw, and the
-- derived class's `submit` come from outside.
pub mod Laws
mod Tests
use flux_foundry.Prelude.{ℕ, ◌+◌, Bool, List, [], ◌∷◌, ◌++◌, ◌==◌, if◌then◌else◌, add64, sub64}

-- `delivered` is the history of the results that `next_step` was called with, `deletes` counts the
-- deletions of the object.
pub record FastAwaitable (R : Type 0) : Type 0 where
  pub refcount : ℕ
  pub delivered : List R
  pub deletes : ℕ

module _ {R : Type 0} where
  abbrev pub fresh : FastAwaitable R
  fresh = record { refcount = 1; delivered = []; deletes = 0 }

  unfoldable pub retain : FastAwaitable R → FastAwaitable R
  retain a = record a { refcount = add64 a.refcount 1 }

  unfoldable pub release : FastAwaitable R → FastAwaitable R
  release a =
      if a.refcount == 1
      then record a { refcount = sub64 a.refcount 1; deletes = a.deletes + 1 }
      else record a { refcount = sub64 a.refcount 1 }

  -- `submit_async` up to the call of `submit`, and the rest of it with the code returned.
  unfoldable pub submit_begin : FastAwaitable R → FastAwaitable R
  unfolding retain
  submit_begin a = retain a

  unfoldable pub submit_end : FastAwaitable R → ℕ → FastAwaitable R × ℕ
  unfolding release
  submit_end a code = (release a, code)

-- `resume` with `do_resume`; `next_step` may throw, and is then called again with the exception.
unfoldable pub resume : {R : Type 0} → (R → Bool) → R → FastAwaitable R → R → FastAwaitable R
unfolding release
resume throws exception a result =
    let calls = if throws result then result ∷ exception ∷ [] else result ∷ [] in
    release (record a { delivered = a.delivered ++ calls })
