-- ===== src/Queue/Mpmc.antt =====
-- `mpmc_queue` of utility/concurrent_queues.h, one access to shared memory at a time.
-- `i & bit_msk` is `i % cap` and `i / capacity` is `i / cap`, for the power of two `cap`.
mod Inv
mod Claims
pub mod Alone
pub mod System
mod Owners
pub mod Safety
mod Tests
use flux_foundry.Prelude.{
  ℕ, ◌/◌, ◌%◌, Bool, true, false, ◌&&◌, not, Option, none, some, ◌==◌, if◌then◌else◌, add64, sub64,
  shl64, is_negative, update,
}

-- `slot_t`; the raw storage is `none` where it holds no object.
pub record Slot (A : Type 0) : Type 0 where
  pub sequence : ℕ
  pub storage : Option A

-- The members of `mpmc_queue`.
pub record Mpmc (A : Type 0) : Type 0 where
  pub m_q : ℕ → Slot A
  pub head : ℕ
  pub tail : ℕ

-- `try_emplace` and `try_pop` return after a failure, `wait_and_emplace` and `wait_and_pop` repeat.
pub data Mode : Type 0 where
  attempt : Mode
  wait : Mode

-- Where a thread stands in a call, with the locals that are live there.
pub data Pc (A : Type 0) : Type 0 where
  idle : Pc A
  emplace : (m : Mode) → (obj : A) → Pc A
  emplace_at : (m : Mode) → (obj : A) → (i : ℕ) → Pc A
  emplace_seen : (m : Mode) → (obj : A) → (i found : ℕ) → Pc A
  emplace_claimed : (obj : A) → (i : ℕ) → Pc A
  emplace_built : (obj : A) → (i : ℕ) → Pc A
  emplaced : (done : Bool) → Pc A
  pop : (m : Mode) → Pc A
  pop_at : (m : Mode) → (i : ℕ) → Pc A
  pop_seen : (m : Mode) → (i found : ℕ) → Pc A
  pop_claimed : (i : ℕ) → Pc A
  pop_moved : (i : ℕ) → (res : Option A) → Pc A
  pop_destroyed : (i : ℕ) → (res : Option A) → Pc A
  popped : (res : Option A) → Pc A

-- The early return on a full (or empty) queue, which only the `try_` calls have.
abbrev pub gives_up : Mode → ℕ → ℕ → Bool
gives_up Mode.attempt found seq = is_negative (sub64 found seq)
gives_up Mode.wait found seq = false

-- `compare_exchange_strong` in the `try_` calls; the weak one of the others may fail spuriously.
abbrev pub exchanges : Mode → Bool → ℕ → ℕ → Bool
exchanges Mode.attempt spurious current expected = current == expected
exchanges Mode.wait spurious current expected = not spurious && (current == expected)

-- The sequence of the slot of ticket `i` while it waits for its producer: `(i / capacity) << 1`.
abbrev pub empty_seq : ℕ → ℕ → ℕ
empty_seq cap i = shl64 (i / cap) 1

-- `((i / capacity) << 1) + 1`
abbrev pub full_seq : ℕ → ℕ → ℕ
full_seq cap i = add64 (empty_seq cap i) 1

module _ {A : Type 0} where
  abbrev pub init : Mpmc A
  init = record { m_q = λ _. record { sequence = 0; storage = none }; head = 0; tail = 0 }

  abbrev pub set_sequence : Mpmc A → ℕ → ℕ → Mpmc A
  set_sequence q c n = record q {
    m_q = update q.m_q c (record { sequence = n; storage = (q.m_q c).storage });
  }

  abbrev pub set_storage : Mpmc A → ℕ → Option A → Mpmc A
  set_storage q c o = record q {
    m_q = update q.m_q c (record { sequence = (q.m_q c).sequence; storage = o });
  }

  -- A failed call: `try_` returns, `wait_and_` goes round its loop.
  abbrev pub emplace_failed : Mode → A → Pc A
  emplace_failed Mode.attempt obj = emplaced false
  emplace_failed Mode.wait obj = emplace Mode.wait obj

  abbrev pub pop_failed : Mode → Pc A
  pop_failed Mode.attempt = popped none
  pop_failed Mode.wait = pop Mode.wait

module _ {A : Type 0} (cap : ℕ) where
  -- The next access of a thread that stands at `pc`; `spurious` lets a weak exchange fail.
  unfoldable pub step : Bool → Mpmc A → Pc A → Mpmc A × Pc A
  step spurious q idle = (q, idle)
  step spurious q (emplaced done) = (q, emplaced done)
  step spurious q (popped res) = (q, popped res)
  step spurious q (emplace m obj) = (q, emplace_at m obj q.tail)
  step spurious q (emplace_at m obj i) = (q, emplace_seen m obj i (q.m_q (i % cap)).sequence)
  step spurious q (emplace_seen m obj i found) =
      if gives_up m found (empty_seq cap i)
      then (q, emplaced false)
      else if (found == empty_seq cap i) && exchanges m spurious q.tail i
      then (record q { tail = add64 i 1 }, emplace_claimed obj i)
      else (q, emplace_failed m obj)
  step spurious q (emplace_claimed obj i) =
      (set_storage q (i % cap) (some obj), emplace_built obj i)
  step spurious q (emplace_built obj i) =
      (set_sequence q (i % cap) (add64 (empty_seq cap i) 1), emplaced true)
  step spurious q (pop m) = (q, pop_at m q.head)
  step spurious q (pop_at m i) = (q, pop_seen m i (q.m_q (i % cap)).sequence)
  step spurious q (pop_seen m i found) =
      if gives_up m found (full_seq cap i)
      then (q, popped none)
      else if (found == full_seq cap i) && exchanges m spurious q.head i
      then (record q { head = add64 i 1 }, pop_claimed i)
      else (q, pop_failed m)
  step spurious q (pop_claimed i) = (q, pop_moved i (q.m_q (i % cap)).storage)
  step spurious q (pop_moved i res) = (set_storage q (i % cap) none, pop_destroyed i res)
  step spurious q (pop_destroyed i res) =
      (set_sequence q (i % cap) (add64 (full_seq cap i) 1), popped res)

  -- A call that no other thread interrupts: at most six accesses.
  unfoldable pub run_alone : ℕ → Mpmc A → Pc A → Mpmc A × Pc A
  run_alone ℕ.zero q pc = (q, pc)
  run_alone (ℕ.suc fuel) q pc = let (q', pc') = step false q pc in run_alone fuel q' pc'

  unfoldable pub try_emplace : Mpmc A → A → Mpmc A × Pc A
  unfolding run_alone step
  try_emplace q obj = run_alone 6 q (emplace Mode.attempt obj)

  unfoldable pub try_pop : Mpmc A → Mpmc A × Pc A
  unfolding run_alone step
  try_pop q = run_alone 6 q (pop Mode.attempt)

  unfoldable pub size : Mpmc A → ℕ
  size q = sub64 q.tail q.head

  unfoldable pub empty : Mpmc A → Bool
  unfolding size
  empty q = size q == 0
