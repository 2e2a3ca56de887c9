-- ===== src/Queue/Spsc/Produces.antt =====
-- The accesses of the producer of an `spsc_queue` keep the invariant.
use native.Mathlib.Decide.{dec_lt}
use flux_foundry.Prelude.{
  ℕ, ◌+◌, ◌%◌, ◌^◌, ◌<◌, ◌≡◌, ◌≢◌, ◌-◌, Bool, false, cell-ne, next_round, sym, arith,
}
use flux_foundry.Queue.Spsc.{Mode, Producer, tests, constructs, publishes, emplace_step}
use flux_foundry.Queue.Spsc.System.{
  System, Inv, ahead_producer, ahead_consumer, emplace_access, published, released,
}

module _ {A : Type 0} {cap n : ℕ} {s : System A} (inv : Inv cap n s) (pos : 0 < cap)
    (small : n < 2 ^ 62) where
  -- A slot that is not ready is free.
  tail_free :
      (s.producer ≢ Producer.advances)
      → (s.queue.slots (s.queue.tail % cap)).ready ≡ false
      → s.queue.tail < released s + cap
  tail_free p h = elim (dec_lt s.queue.tail (released s + cap)) [
    | yes lt ↦ lt
    | no ge ↦ absurd (ground (arith, h, wrapped ge, inv.full (released s), inv.room, ahead_zero))
  ]
    where
      ahead_zero : ahead_producer s.producer ≡ 0
      ahead_zero = ground (arith, p)

      wrapped : ¬ (s.queue.tail < released s + cap) → s.queue.tail % cap ≡ released s % cap
      wrapped ge =
          let last : released s ≡ s.queue.tail - cap = omega (arith, inv.room, ahead_zero) in
          rw last (sym (next_round cap s.queue.tail pos (omega arith)).0)

  -- What the consumer holds was published.
  consumer_behind : ahead_consumer s.consumer ≡ 1 → s.queue.head < published s
  consumer_behind c = omega (arith, inv.order, c)

  pub emplace-Inv : (p : Producer A) → s.producer ≡ p → Inv cap (n + 1) (emplace_access cap s)
  unfolding emplace_step
  emplace-Inv (Producer.rests done) e = record {
    few = ground (arith, inv.few);
    order = ground (arith, inv.order);
    room = ground (arith, inv.room);
    full = λ i h k. ground (arith, inv.full i);
    free = λ i h k. ground (arith, inv.free i);
    items = λ i h k e'. ground (arith, inv.items i);
    sent_some = λ i h. ground (arith, inv.sent_some i);
    writing = λ h. ground (arith, inv.writing);
    written = ground (arith, inv.written);
    reading = λ h. ground (arith, inv.reading);
    taken = ground (arith, inv.taken);
  }
  emplace-Inv (tests m obj) e = record {
    few = ground (arith, inv.few);
    order = ground (arith, inv.order);
    room = ground (arith, inv.room);
    full = λ i h k. ground (arith, inv.full i);
    free = λ i h k. ground (arith, inv.free i);
    items = λ i h k e'. ground (arith, inv.items i);
    sent_some = λ i h. ground (arith, inv.sent_some i);
    writing = λ h. ground (arith, tail_free (λ a. ground arith));
    written = ground (arith, inv.written);
    reading = λ h. ground (arith, inv.reading);
    taken = ground (arith, inv.taken);
  }
  emplace-Inv (constructs obj) e = record {
    few = ground (arith, inv.few);
    order = ground (arith, inv.order);
    room = ground (arith, inv.room);
    full = λ i h k. ground (arith, inv.full i);
    free = λ i h k. ground (arith, inv.free i);
    items = λ i h k e'. ground (arith, inv.items i, inv.writing, cell-ne cap i s.queue.tail);
    sent_some = λ i h. ground (arith, inv.sent_some i);
    writing = λ h. ground (arith, inv.writing);
    written = ground (arith, inv.written);
    reading = λ h. ground (arith, inv.reading);
    taken = ground (arith, inv.taken);
  }
  emplace-Inv (publishes obj) e = record {
    few = ground (arith, inv.few);
    order = ground (arith, inv.order);
    room = ground (arith, inv.writing);
    full = λ i h k. ground (arith, inv.full i);
    free = λ i h k. ground (arith, inv.free i, cell-ne cap s.queue.tail i);
    items = λ i h k e'. ground (arith, inv.items i, inv.written);
    sent_some = λ i h. ground (arith, inv.sent_some i);
    writing = λ h. ground (arith, inv.writing);
    written = ground (arith, inv.written);
    reading = λ h. ground (arith, inv.reading);
    taken = ground (arith, inv.taken, inv.reading, consumer_behind);
  }
  emplace-Inv Producer.advances e = record {
    few = ground (arith, inv.few);
    order = ground (arith, inv.order);
    room = ground (arith, inv.room);
    full = λ i h k. ground (arith, inv.full i);
    free = λ i h k. ground (arith, inv.free i);
    items = λ i h k e'. ground (arith, inv.items i);
    sent_some = λ i h. ground (arith, inv.sent_some i);
    writing = λ h. ground (arith, inv.writing);
    written = ground (arith, inv.written);
    reading = λ h. ground (arith, inv.reading);
    taken = ground (arith, inv.taken);
  }

  pub call_emplace-Inv :
      (m : Mode) (obj : A) (done : Bool)
      → s.producer ≡ Producer.rests done
      → Inv cap (n + 1) (record s { producer = Producer.tests m obj })
  call_emplace-Inv m obj done e = record {
    few = ground (arith, inv.few);
    order = ground (arith, inv.order);
    room = ground (arith, inv.room);
    full = λ i h k. ground (arith, inv.full i);
    free = λ i h k. ground (arith, inv.free i);
    items = λ i h k e'. ground (arith, inv.items i);
    sent_some = λ i h. ground (arith, inv.sent_some i);
    writing = λ h. ground (arith, inv.writing);
    written = ground (arith, inv.written);
    reading = λ h. ground (arith, inv.reading);
    taken = ground (arith, inv.taken);
  }
