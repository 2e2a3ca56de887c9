-- ===== src/Queue/Spsc.antt =====
-- `spsc_queue` of utility/concurrent_queues.h, one access to shared memory at a time, with its one
-- producer and its one consumer. `_t & (capacity - 1)` is `tail % cap`, for the power of two `cap`.
pub mod System
pub mod Produces
pub mod Consumes
pub mod Safety
mod Tests
use flux_foundry.Prelude.{
  ℕ, zero, suc, ◌+◌, ◌%◌, ◌<◌, ◌≡◌, Bool, true, false, Option, none, some, if◌then◌else◌, add64,
  update,
}

-- `slot_t`; the raw storage is `none` where it holds no object.
pub record Slot (A : Type 0) : Type 0 where
  pub ready : Bool
  pub storage : Option A

pub record Spsc (A : Type 0) : Type 0 where
  pub slots : ℕ → Slot A
  pub head : ℕ
  pub tail : ℕ

-- `try_` calls return after a failure, `wait_and_` calls repeat.
pub data Mode : Type 0 where
  attempt : Mode
  wait : Mode

-- Where the producer stands: out of a call, or before an access of one.
pub data Producer (A : Type 0) : Type 0 where
  rests : (done : Bool) → Producer A
  tests : (m : Mode) → (obj : A) → Producer A
  constructs : (obj : A) → Producer A
  publishes : (obj : A) → Producer A
  advances : Producer A

pub data Consumer (A : Type 0) : Type 0 where
  rests : (res : Option A) → Consumer A
  tests : (m : Mode) → Consumer A
  moves : Consumer A
  destroys : (res : Option A) → Consumer A
  releases : (res : Option A) → Consumer A
  advances : (res : Option A) → Consumer A

module _ {A : Type 0} where
  abbrev pub init : Spsc A
  init = record { slots = λ c. record { ready = false; storage = none }; head = 0; tail = 0 }

  abbrev pub set_ready : Spsc A → ℕ → Bool → Spsc A
  set_ready q c b = record q {
    slots = update q.slots c (record { ready = b; storage = (q.slots c).storage });
  }

  abbrev pub set_storage : Spsc A → ℕ → Option A → Spsc A
  set_storage q c o = record q {
    slots = update q.slots c (record { ready = (q.slots c).ready; storage = o });
  }

  abbrev pub emplace_failed : Mode → A → Producer A
  emplace_failed Mode.attempt obj = Producer.rests false
  emplace_failed Mode.wait obj = Producer.tests Mode.wait obj

  abbrev pub pop_failed : Mode → Consumer A
  pop_failed Mode.attempt = Consumer.rests none
  pop_failed Mode.wait = Consumer.tests Mode.wait

  -- An access of `try_emplace` or `wait_and_emplace`.
  unfoldable pub emplace_step : ℕ → Spsc A → Producer A → Spsc A × Producer A
  emplace_step cap q (Producer.rests done) = (q, Producer.rests done)
  emplace_step cap q (Producer.tests m obj) =
      (q, if (q.slots (q.tail % cap)).ready then emplace_failed m obj else constructs obj)
  emplace_step cap q (constructs obj) = (set_storage q (q.tail % cap) (some obj), publishes obj)
  emplace_step cap q (publishes obj) = (set_ready q (q.tail % cap) true, Producer.advances)
  emplace_step cap q Producer.advances = (record q { tail = add64 q.tail 1 }, Producer.rests true)

  -- An access of `try_pop` or `wait_and_pop`.
  unfoldable pub pop_step : ℕ → Spsc A → Consumer A → Spsc A × Consumer A
  pop_step cap q (Consumer.rests res) = (q, Consumer.rests res)
  pop_step cap q (Consumer.tests m) =
      (q, if (q.slots (q.head % cap)).ready then moves else pop_failed m)
  pop_step cap q moves = (q, destroys (q.slots (q.head % cap)).storage)
  pop_step cap q (destroys res) = (set_storage q (q.head % cap) none, releases res)
  pop_step cap q (releases res) = (set_ready q (q.head % cap) false, Consumer.advances res)
  pop_step cap q (Consumer.advances res) = (record q { head = add64 q.head 1 }, Consumer.rests res)
