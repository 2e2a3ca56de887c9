-- ===== src/Queue/Spsc/System.antt =====
-- The producer and the consumer of one `spsc_queue`, interleaved in any order, and their invariant.
use flux_foundry.Prelude.{
  ℕ, zero, suc, ◌+◌, ◌%◌, ◌≤◌, ◌<◌, ◌≡◌, ◌≢◌, refl, Bool, true, false, Option, none, some, ◌==◌,
  ◌&&◌, update, arith,
}
use flux_foundry.Queue.Spsc.{
  Spsc, Mode, Producer, Consumer, constructs, publishes, moves, destroys, releases, init,
  emplace_step, pop_step,
}

-- `sent` is the history: the object of each ticket that was published.
pub record System (A : Type 0) : Type 0 where
  pub queue : Spsc A
  pub producer : Producer A
  pub consumer : Consumer A
  pub sent : ℕ → Option A

module _ {A : Type 0} where
  abbrev pub start : System A
  start = record {
    queue = init;
    producer = Producer.rests true;
    consumer = Consumer.rests none;
    sent = λ i. none;
  }

  abbrev pub log : ℕ → Producer A → (ℕ → Option A) → ℕ → Option A
  log i (publishes obj) sent = update sent i (some obj)
  log i _ sent = sent

  abbrev pub emplace_access : ℕ → System A → System A
  emplace_access cap s =
      let (q, p) = emplace_step cap s.queue s.producer in
      record s { queue = q; producer = p; sent = log s.queue.tail s.producer s.sent }

  abbrev pub pop_access : ℕ → System A → System A
  pop_access cap s =
      let (q, c) = pop_step cap s.queue s.consumer in record s { queue = q; consumer = c }

pub data Step {A : Type 0} (cap : ℕ) (s : System A) : System A → Type 0 where
  call_emplace :
      (m : Mode) (obj : A) {done : Bool}
      → s.producer ≡ Producer.rests done
      → Step cap s (record s { producer = Producer.tests m obj })
  call_pop :
      (m : Mode) {res : Option A}
      → s.consumer ≡ Consumer.rests res
      → Step cap s (record s { consumer = Consumer.tests m })
  emplaces : Step cap s (emplace_access cap s)
  pops : Step cap s (pop_access cap s)

pub data Reach {A : Type 0} (cap : ℕ) : ℕ → System A → Type 0 where
  initial : Reach cap zero start
  next : {n : ℕ} {s t : System A} → Reach cap n s → Step cap s t → Reach cap (suc n) t

module _ {A : Type 0} where
  -- After its store to `ready` the producer is one ticket ahead of `_t`, the consumer of `_h`.
  abbrev pub ahead_producer : Producer A → ℕ
  ahead_producer Producer.advances = 1
  ahead_producer _ = 0

  abbrev pub ahead_consumer : Consumer A → ℕ
  ahead_consumer (Consumer.advances res) = 1
  ahead_consumer _ = 0

  -- The first ticket that is not published, and the first that is not released.
  abbrev pub published : System A → ℕ
  published s = s.queue.tail + ahead_producer s.producer

  abbrev pub released : System A → ℕ
  released s = s.queue.head + ahead_consumer s.consumer

  abbrev pub emptied : Consumer A → Bool
  emptied (releases res) = true
  emptied _ = false

  -- The slot that the producer writes to, and that the consumer reads from or clears.
  abbrev pub writes : Producer A → Bool
  writes (constructs obj) = true
  writes (publishes obj) = true
  writes _ = false

  abbrev pub reads : Consumer A → Bool
  reads moves = true
  reads (destroys res) = true
  reads (releases res) = true
  reads _ = false

  abbrev pub Written : Producer A → Option A → Type 0
  Written (publishes obj) o = o ≡ some obj
  Written _ o = Unit {0}

  -- The object that the consumer holds.
  abbrev pub Taken : Consumer A → Option A → Type 0
  Taken (destroys res) o = res ≡ o
  Taken (releases res) o = res ≡ o
  Taken (Consumer.advances res) o = res ≡ o
  Taken _ o = Unit {0}

  pub record Inv (cap n : ℕ) (s : System A) : Type 0 where
    pub few : published s ≤ n
    pub order : released s ≤ published s
    pub room : published s ≤ released s + cap
    pub full : (i : ℕ) → released s ≤ i → i < published s → (s.queue.slots (i % cap)).ready ≡ true
    pub free :
        (i : ℕ) → published s ≤ i → i < released s + cap → (s.queue.slots (i % cap)).ready ≡ false
    pub items :
        (i : ℕ)
        → released s ≤ i
        → i < published s
        → (emptied s.consumer && (i == s.queue.head)) ≡ false
        → (s.queue.slots (i % cap)).storage ≡ s.sent i
    pub sent_some : (i : ℕ) → i < published s → s.sent i ≢ none
    pub writing : writes s.producer ≡ true → s.queue.tail < released s + cap
    pub written : Written s.producer (s.queue.slots (s.queue.tail % cap)).storage
    pub reading : reads s.consumer ≡ true → s.queue.head < published s
    pub taken : Taken s.consumer (s.sent s.queue.head)

  pub start-Inv : (cap : ℕ) → Inv cap 0 start
  start-Inv cap = record {
    few = omega arith;
    order = omega arith;
    room = omega arith;
    full = λ i h k. absurd (omega arith);
    free = λ i h k. refl;
    items = λ i h k e. absurd (omega arith);
    sent_some = λ i h. absurd (omega arith);
    writing = λ h. ground arith;
    written = tt;
    reading = λ h. ground arith;
    taken = tt;
  }
