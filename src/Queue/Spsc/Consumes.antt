-- ===== src/Queue/Spsc/Consumes.antt =====
-- The accesses of the consumer of an `spsc_queue` keep the invariant.
use flux_foundry.Prelude.{
  ℕ, ◌+◌, ◌%◌, ◌^◌, ◌<◌, ◌≡◌, ◌-◌, true, Option, cell-ne, next_round, sym, arith,
}
use flux_foundry.Queue.Spsc.{Mode, Consumer, tests, moves, destroys, releases, pop_step}
use flux_foundry.Queue.Spsc.System.{System, Inv, ahead_consumer, pop_access, published}

module _ {A : Type 0} {cap n : ℕ} {s : System A} (inv : Inv cap n s) (pos : 0 < cap)
    (small : n < 2 ^ 62) where
  -- A slot that is ready is full.
  head_full :
      ahead_consumer s.consumer ≡ 0
      → (s.queue.slots (s.queue.head % cap)).ready ≡ true
      → s.queue.head < published s
  head_full c h = ground (arith, inv.order, inv.free s.queue.head)

  pub pop-Inv : (c : Consumer A) → s.consumer ≡ c → Inv cap (n + 1) (pop_access cap s)
  unfolding pop_step
  pop-Inv (Consumer.rests res) e = record {
    few = ground (arith, inv.few);
    order = ground (arith, inv.order);
    room = ground (arith, inv.room);
    full = λ i h k. ground (arith, inv.full i);
    free = λ i h k. ground (arith, inv.free i);
    items = λ i h k e'. ground (arith, inv.items i);
    sent_some = λ i h. ground (arith, inv.sent_some i);
    writing = λ h. ground (arith, inv.writing);
    written = ground (arith, inv.written);
    reading = λ h. ground (arith, inv.reading);
    taken = ground (arith, inv.taken);
  }
  pop-Inv (tests m) e = record {
    few = ground (arith, inv.few);
    order = ground (arith, inv.order);
    room = ground (arith, inv.room);
    full = λ i h k. ground (arith, inv.full i);
    free = λ i h k. ground (arith, inv.free i);
    items = λ i h k e'. ground (arith, inv.items i);
    sent_some = λ i h. ground (arith, inv.sent_some i);
    writing = λ h. ground (arith, inv.writing);
    written = ground (arith, inv.written);
    reading = λ h. ground (arith, head_full (ground arith));
    taken = ground (arith, inv.taken);
  }
  pop-Inv moves e = record {
    few = ground (arith, inv.few);
    order = ground (arith, inv.order);
    room = ground (arith, inv.room);
    full = λ i h k. ground (arith, inv.full i);
    free = λ i h k. ground (arith, inv.free i);
    items = λ i h k e'. ground (arith, inv.items i);
    sent_some = λ i h. ground (arith, inv.sent_some i);
    writing = λ h. ground (arith, inv.writing);
    written = ground (arith, inv.written);
    reading = λ h. ground (arith, inv.reading);
    taken = ground (arith, inv.items s.queue.head, inv.reading);
  }
  pop-Inv (destroys res) e = record {
    few = ground (arith, inv.few);
    order = ground (arith, inv.order);
    room = ground (arith, inv.room);
    full = λ i h k. ground (arith, inv.full i);
    free = λ i h k. ground (arith, inv.free i);
    items = λ i h k e'. ground (arith, inv.items i, inv.room, cell-ne cap s.queue.head i);
    sent_some = λ i h. ground (arith, inv.sent_some i);
    writing = λ h. ground (arith, inv.writing);
    written =
        ground
          (arith, inv.written, inv.writing, inv.reading, cell-ne cap s.queue.head s.queue.tail);
    reading = λ h. ground (arith, inv.reading);
    taken = ground (arith, inv.taken);
  }
  pop-Inv (releases res) e = record {
    few = ground (arith, inv.few);
    order = ground (arith, inv.reading);
    room = ground (arith, inv.room);
    full = λ i h k. ground (arith, inv.full i, inv.room, cell-ne cap s.queue.head i);
    free = λ i h k. ground (arith, inv.free i, wrapped i);
    items = λ i h k e'. ground (arith, inv.items i);
    sent_some = λ i h. ground (arith, inv.sent_some i);
    writing = λ h. ground (arith, inv.writing);
    written = ground (arith, inv.written);
    reading = λ h. ground (arith, inv.reading);
    taken = ground (arith, inv.taken);
  }
    where
      wrapped : (i : ℕ) → i ≡ s.queue.head + cap → i % cap ≡ s.queue.head % cap
      wrapped i h =
          let first : s.queue.head ≡ i - cap = omega arith in
          rw first (sym (next_round cap i pos (omega arith)).0)
  pop-Inv (Consumer.advances res) e = record {
    few = ground (arith, inv.few, inv.order);
    order = ground (arith, inv.few, inv.order);
    room = ground (arith, inv.few, inv.order, inv.room);
    full = λ i h k. ground (arith, inv.full i, inv.few, inv.order);
    free = λ i h k. ground (arith, inv.free i, inv.few, inv.order);
    items = λ i h k e'. ground (arith, inv.items i, inv.few, inv.order);
    sent_some = λ i h. ground (arith, inv.sent_some i);
    writing = λ h. ground (arith, inv.writing, inv.few, inv.order);
    written = ground (arith, inv.written);
    reading = λ h. ground (arith, inv.reading);
    taken = ground (arith, inv.taken);
  }

  pub call_pop-Inv :
      (m : Mode) (res : Option A)
      → s.consumer ≡ Consumer.rests res
      → Inv cap (n + 1) (record s { consumer = Consumer.tests m })
  call_pop-Inv m res e = record {
    few = ground (arith, inv.few);
    order = ground (arith, inv.order);
    room = ground (arith, inv.room);
    full = λ i h k. ground (arith, inv.full i);
    free = λ i h k. ground (arith, inv.free i);
    items = λ i h k e'. ground (arith, inv.items i);
    sent_some = λ i h. ground (arith, inv.sent_some i);
    writing = λ h. ground (arith, inv.writing);
    written = ground (arith, inv.written);
    reading = λ h. ground (arith, inv.reading);
    taken = ground (arith, inv.taken);
  }
