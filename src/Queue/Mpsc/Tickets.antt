-- ===== src/Queue/Mpsc/Tickets.antt =====
-- A producer that takes a ticket, or writes nothing, keeps the invariant.
use native.Mathlib.Decide.{dec_lt}
use flux_foundry.Prelude.{
  ℕ, suc, ◌+◌, ◌%◌, ◌^◌, ◌≤◌, ◌<◌, ◌≡◌, inl, inr, some, ◌==◌, add64, update, next_round, Bool-cases,
  arith,
}
use flux_foundry.Queue.Mpsc.{
  Producer, rests, loads, tests, exchanges, constructs, publishes, Consumer, idle, probes, moves,
  destroys, releases, advances, seq_of,
}
use flux_foundry.Queue.Mpsc.System.{System}
use flux_foundry.Queue.Mpsc.Inv.{ahead, released, Works, Takes, Inv}

module _ {A : Type 0} {cap n : ℕ} {s : System A} (inv : Inv cap n s) (pos : 0 < cap)
    (small : n < 2 ^ 62) where
  -- The slot of the tail is empty only when it was released in the round before.
  pub tail_room :
      s.queue.ready (s.queue.tail % cap) ≡ seq_of cap s.queue.tail → s.queue.tail < released s + cap
  tail_room e = elim (dec_lt s.queue.tail (released s + cap)) [
    | yes h ↦ h
    | no h ↦ absurd (full_round (omega (arith, inv.room)))
  ]
    where
      full_round : s.queue.tail ≡ released s + cap → ⊥
      full_round same = ground (
        arith,
        e,
        same,
        inv.full (released s) (omega arith) (omega arith),
        next_round cap s.queue.tail pos (omega arith),
      )

  -- A step of a producer that writes nothing.
  pub still-Inv :
      (p : ℕ) (pc : Producer A)
      → Works cap s.queue (released s) s.published s.owner s.sent p pc
      → Inv cap (suc n) (record s { producers = update s.producers p pc })
  still-Inv p pc w = record {
    few = omega (arith, inv.few);
    order = inv.order;
    room = inv.room;
    full = inv.full;
    free = inv.free;
    later = inv.later;
    items = inv.items;
    sent_some = inv.sent_some;
    got = inv.got;
    works = λ q. elim (Bool-cases (p == q)) [
      | inl y ↦ ground (arith, y, w)
      | inr m ↦ ground (arith, m, inv.works q)
    ];
    takes = inv.takes;
  }

  -- A ticket is taken.
  other_taken :
      (p q : ℕ) (obj : A) (pc : Producer A)
      → Works cap s.queue (released s) s.published s.owner s.sent q pc
      → Works cap
          (record s.queue { tail = add64 s.queue.tail 1 })
          (released s)
          s.published
          (update s.owner s.queue.tail p)
          (update s.sent s.queue.tail (some obj))
          q
          pc
  other_taken p q obj (rests done) w = tt
  other_taken p q obj (loads m x) w = tt
  other_taken p q obj (tests m x u) w = ground (arith, inv.few)
  other_taken p q obj (exchanges m x u) w = ground (arith, inv.few)
  other_taken p q obj (constructs x u) w = ground (arith, inv.few)
  other_taken p q obj (publishes x u) w = ground (arith, inv.few)

  taken-Works :
      (p q : ℕ) (obj : A)
      → p ≡ q
      → Works cap
          (record s.queue { tail = add64 s.queue.tail 1 })
          (released s)
          s.published
          (update s.owner s.queue.tail p)
          (update s.sent s.queue.tail (some obj))
          q
          (constructs obj s.queue.tail)
  taken-Works p q obj same = record {
    taken = ground (arith, inv.few);
    kept = inv.order;
    unpublished = inv.later s.queue.tail (ground arith);
    owned = ground (arith, same);
    sends = ground arith;
  }

  takes_taken :
      (obj : A) (c : Consumer A)
      → s.queue.head + ahead c ≤ s.queue.tail
      → Takes cap s.queue s.published s.sent c
      → Takes cap
          (record s.queue { tail = add64 s.queue.tail 1 })
          s.published
          (update s.sent s.queue.tail (some obj))
          c
  takes_taken obj (idle res) o w = tt
  takes_taken obj (probes m) o w = tt
  takes_taken obj (moves seq) o w = ground (arith, inv.few)
  takes_taken obj (destroys seq res) o w = ground (arith, inv.few)
  takes_taken obj (releases seq res) o w = ground (arith, inv.few)
  takes_taken obj (advances res) o w = ground (arith, inv.few)

  pub take-Inv :
      (p : ℕ) (obj : A)
      → s.queue.tail < released s + cap
      → Inv cap (suc n) (record s {
        queue = record s.queue { tail = add64 s.queue.tail 1 };
        producers = update s.producers p (constructs obj s.queue.tail);
        sent = update s.sent s.queue.tail (some obj);
        owner = update s.owner s.queue.tail p;
      })
  take-Inv p obj h = record {
    few = ground (arith, inv.few);
    order = ground (arith, inv.few, inv.order);
    room = ground (arith, inv.few, inv.room);
    full = λ i a b. ground (arith, inv.few, inv.full i, inv.free i, inv.later i);
    free = λ i a b. ground (arith, inv.few, inv.free i);
    later = λ i a. ground (arith, inv.few, inv.later i);
    items = λ i a b e f. ground (arith, inv.few, inv.items i, inv.later i);
    sent_some = λ i a. ground (arith, inv.few, inv.sent_some i);
    got = λ i a. ground (arith, inv.got i, inv.order);
    works = λ q. elim (Bool-cases (p == q)) [
      | inl y ↦ rw y (taken-Works p q obj (ground (arith, y)))
      | inr m ↦ rw m (other_taken p q obj (s.producers q) (inv.works q))
    ];
    takes = takes_taken obj s.consumer inv.order inv.takes;
  }
