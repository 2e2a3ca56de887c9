-- ===== src/Queue/Mpsc.antt =====
-- `mpsc_queue` of utility/concurrent_queues.h, one access to shared memory at a time, with any number
-- of producers and its one consumer. `t & MASK` is `t % cap`, for the power of two `cap`.
pub mod System
pub mod Inv
pub mod Tickets
pub mod Writes
pub mod Producers
pub mod Pops
pub mod Safety
mod Tests
use flux_foundry.Prelude.{
  ℕ, ◌+◌, ◌%◌, ◌/◌, Bool, true, false, not, ◌&&◌, Option, none, some, ◌==◌, if◌then◌else◌, add64,
  shl64, update,
}

-- The slots' `ready` and their storage, which is `none` where it holds no object; `_h` and `_t`.
pub record Mpsc (A : Type 0) : Type 0 where
  pub ready : ℕ → ℕ
  pub storage : ℕ → Option A
  pub head : ℕ
  pub tail : ℕ

-- `try_` calls return after a failure, `wait_and_` calls repeat.
pub data Mode : Type 0 where
  attempt : Mode
  wait : Mode

-- Where a producer stands: out of a call, or before an access of one; `t` is the tail that it loaded.
pub data Producer (A : Type 0) : Type 0 where
  rests : (done : Bool) → Producer A
  loads : (m : Mode) → (obj : A) → Producer A
  tests : (m : Mode) → (obj : A) → (t : ℕ) → Producer A
  exchanges : (m : Mode) → (obj : A) → (t : ℕ) → Producer A
  constructs : (obj : A) → (t : ℕ) → Producer A
  publishes : (obj : A) → (t : ℕ) → Producer A

-- Where the consumer stands; `seq` is the `ready` that it loaded.
pub data Consumer (A : Type 0) : Type 0 where
  idle : (res : Option A) → Consumer A
  probes : (m : Mode) → Consumer A
  moves : (seq : ℕ) → Consumer A
  destroys : (seq : ℕ) → (res : Option A) → Consumer A
  releases : (seq : ℕ) → (res : Option A) → Consumer A
  advances : (res : Option A) → Consumer A

-- `(t / capacity) << 1`
abbrev pub seq_of : ℕ → ℕ → ℕ
seq_of cap t = shl64 (t / cap) 1

-- The exchange of `wait_and_emplace` is weak, and may fail for no reason.
abbrev pub may_exchange : Mode → (spurious : Bool) → Bool
may_exchange attempt spurious = true
may_exchange wait spurious = not spurious

module _ {A : Type 0} where
  abbrev pub init : Mpsc A
  init = record { ready = λ c. 0; storage = λ c. none; head = 0; tail = 0 }

  abbrev pub emplace_failed : Mode → A → Producer A
  emplace_failed attempt obj = rests false
  emplace_failed wait obj = loads wait obj

  abbrev pub pop_failed : Mode → Consumer A
  pop_failed attempt = idle none
  pop_failed wait = probes wait

  -- One access of `try_emplace` or `wait_and_emplace`.
  abbrev pub emplace_step : ℕ → (spurious : Bool) → Producer A → Mpsc A → Mpsc A × Producer A
  emplace_step cap spurious (rests done) q = (q, rests done)
  emplace_step cap spurious (loads m obj) q = (q, tests m obj q.tail)
  emplace_step cap spurious (tests m obj t) q =
      (q, if q.ready (t % cap) == seq_of cap t then exchanges m obj t else emplace_failed m obj)
  emplace_step cap spurious (exchanges m obj t) q =
      if (q.tail == t) && may_exchange m spurious
      then (record q { tail = add64 t 1 }, constructs obj t)
      else (q, emplace_failed m obj)
  emplace_step cap spurious (constructs obj t) q =
      (record q { storage = update q.storage (t % cap) (some obj) }, publishes obj t)
  emplace_step cap spurious (publishes obj t) q =
      (record q { ready = update q.ready (t % cap) (add64 (seq_of cap t) 1) }, rests true)

  -- One access of `try_pop` or `wait_and_pop`.
  abbrev pub pop_step : ℕ → Consumer A → Mpsc A → Mpsc A × Consumer A
  pop_step cap (idle res) q = (q, idle res)
  pop_step cap (probes m) q =
      (q, if q.ready (q.head % cap) % 2 == 0 then pop_failed m else moves (q.ready (q.head % cap)))
  pop_step cap (moves seq) q = (q, destroys seq (q.storage (q.head % cap)))
  pop_step cap (destroys seq res) q =
      (record q { storage = update q.storage (q.head % cap) none }, releases seq res)
  pop_step cap (releases seq res) q =
      (record q { ready = update q.ready (q.head % cap) (add64 seq 1) }, advances res)
  pop_step cap (advances res) q = (record q { head = add64 q.head 1 }, idle res)
