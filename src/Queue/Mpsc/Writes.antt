-- ===== src/Queue/Mpsc/Writes.antt =====
-- A producer that writes to the slot of its ticket keeps the invariant.
use flux_foundry.Prelude.{
  ℕ, suc, ◌+◌, ◌%◌, ◌^◌, ◌<◌, ◌≡◌, ◌≢◌, inl, inr, refl, true, some, ◌==◌, add64, update, cell-ne,
  Bool-cases, arith,
}
use flux_foundry.Queue.Mpsc.{
  Producer, rests, loads, tests, exchanges, constructs, publishes, Consumer, idle, probes, moves,
  destroys, releases, advances, seq_of,
}
use flux_foundry.Queue.Mpsc.System.{System}
use flux_foundry.Queue.Mpsc.Inv.{ahead, released, Holds, Works, Takes, Inv}

module _ {A : Type 0} {cap n : ℕ} {s : System A} (inv : Inv cap n s) (pos : 0 < cap)
    (small : n < 2 ^ 62) where
  -- An object is constructed, or published, in the slot of a ticket `t`.
  other_constructs :
      (p q t : ℕ) (obj : A) (pc : Producer A)
      → p ≢ q
      → Holds s.queue.tail (released s) s.published s.owner s.sent p t obj
      → Works cap s.queue (released s) s.published s.owner s.sent q pc
      → Works cap
          (record s.queue { storage = update s.queue.storage (t % cap) (some obj) })
          (released s)
          s.published
          s.owner
          s.sent
          q
          pc
  other_constructs p q t obj (rests done) ne h w = tt
  other_constructs p q t obj (loads m x) ne h w = tt
  other_constructs p q t obj (tests m x u) ne h w = w
  other_constructs p q t obj (exchanges m x u) ne h w = w
  other_constructs p q t obj (constructs x u) ne h w = w
  other_constructs p q t obj (publishes x u) ne h w =
      ground (arith, ne, h, w, inv.room, cell-ne cap t u, cell-ne cap u t)

  pub construct-Inv :
      (p t : ℕ) (obj : A)
      → Holds s.queue.tail (released s) s.published s.owner s.sent p t obj
      → Inv cap (suc n) (record s {
        queue = record s.queue { storage = update s.queue.storage (t % cap) (some obj) };
        producers = update s.producers p (publishes obj t);
      })
  construct-Inv p t obj h = record {
    few = ground (arith, inv.few);
    order = inv.order;
    room = inv.room;
    full = inv.full;
    free = inv.free;
    later = inv.later;
    items = λ i a b e f.
        ground (arith, h, inv.room, inv.items i a b e f, cell-ne cap t i, cell-ne cap i t);
    sent_some = inv.sent_some;
    got = inv.got;
    works = λ q. elim (Bool-cases (p == q)) [
      | inl y ↦ ground (arith, y, h)
      | inr m ↦
          rw m (other_constructs p q t obj (s.producers q) (ground (arith, m)) h (inv.works q))
    ];
    takes = takes_constructed t obj s.consumer inv.takes;
  }
    where
      takes_constructed :
          (u : ℕ) (x : A) (c : Consumer A)
          → Takes cap s.queue s.published s.sent c
          → Takes cap
              (record s.queue { storage = update s.queue.storage (u % cap) (some x) })
              s.published
              s.sent
              c
      takes_constructed u x (idle res) w = tt
      takes_constructed u x (probes m) w = tt
      takes_constructed u x (moves seq) w = record {
        before = w.before;
        ready = w.ready;
        current = w.current;
      }
      takes_constructed u x (destroys seq res) (w, e) =
          (record { before = w.before; ready = w.ready; current = w.current }, e)
      takes_constructed u x (releases seq res) (w, e) =
          (record { before = w.before; ready = w.ready; current = w.current }, e)
      takes_constructed u x (advances res) w = w

  other_publishes :
      (p q t : ℕ) (obj : A) (pc : Producer A)
      → p ≢ q
      → Holds s.queue.tail (released s) s.published s.owner s.sent p t obj
      → Works cap s.queue (released s) s.published s.owner s.sent q pc
      → Works cap
          (record s.queue { ready = update s.queue.ready (t % cap) (add64 (seq_of cap t) 1) })
          (released s)
          (update s.published t true)
          s.owner
          s.sent
          q
          pc
  other_publishes p q t obj (rests done) ne h w = tt
  other_publishes p q t obj (loads m x) ne h w = tt
  other_publishes p q t obj (tests m x u) ne h w = w
  other_publishes p q t obj (exchanges m x u) ne h w = w
  other_publishes p q t obj (constructs x u) ne h w = ground (arith, ne, h, w)
  other_publishes p q t obj (publishes x u) ne h w = ground (arith, ne, h, w)

  takes_published :
      (p t : ℕ) (obj : A) (c : Consumer A)
      → released s ≡ s.queue.head + ahead c
      → Holds s.queue.tail (released s) s.published s.owner s.sent p t obj
      → Takes cap s.queue s.published s.sent c
      → Takes cap
          (record s.queue { ready = update s.queue.ready (t % cap) (add64 (seq_of cap t) 1) })
          (update s.published t true)
          s.sent
          c
  takes_published p t obj (idle res) r h w = tt
  takes_published p t obj (probes m) r h w = tt
  takes_published p t obj (moves seq) r h w =
      ground (arith, r, h, w, inv.room, cell-ne cap s.queue.head t)
  takes_published p t obj (destroys seq res) r h w =
      ground (arith, r, h, w, inv.room, cell-ne cap s.queue.head t)
  takes_published p t obj (releases seq res) r h w =
      ground (arith, r, h, w, inv.room, cell-ne cap s.queue.head t)
  takes_published p t obj (advances res) r h w = w

  pub publish-Inv :
      (p t : ℕ) (obj : A)
      → Holds s.queue.tail (released s) s.published s.owner s.sent p t obj
      → s.queue.storage (t % cap) ≡ some obj
      → Inv cap (suc n) (record s {
        queue = record s.queue { ready = update s.queue.ready (t % cap) (add64 (seq_of cap t) 1) };
        producers = update s.producers p (rests true);
        published = update s.published t true;
      })
  publish-Inv p t obj h o = record {
    few = ground (arith, inv.few);
    order = inv.order;
    room = inv.room;
    full = λ i a b. ground (arith, h, inv.room, inv.full i a b, cell-ne cap t i, cell-ne cap i t);
    free = λ i a b. ground (arith, h, inv.room, inv.free i a b, cell-ne cap t i);
    later = λ i a. ground (arith, h, inv.later i a);
    items = λ i a b e f. ground (arith, h, o, e, f, inv.items i a b);
    sent_some = inv.sent_some;
    got = inv.got;
    works = λ q. elim (Bool-cases (p == q)) [
      | inl y ↦ ground (arith, y)
      | inr m ↦ rw m (other_publishes p q t obj (s.producers q) (ground (arith, m)) h (inv.works q))
    ];
    takes = takes_published p t obj s.consumer refl h inv.takes;
  }
