-- ===== src/Queue/Mpsc/Pops.antt =====
-- The accesses of the consumer keep the invariant.
use native.Mathlib.Decide.{dec_lt}
use flux_foundry.Prelude.{
  ℕ, suc, ◌+◌, ◌%◌, ◌^◌, ◌≤◌, ◌<◌, ◌≡◌, ◌≢◌, inl, inr, refl, sym, ap, ◌∙◌, false, Option, none,
  ◌==◌, add64, update, cell-ne, next_round, Bool-cases, arith,
}
use flux_foundry.Queue.Mpsc.{
  Mpsc, Mode, attempt, wait, Producer, rests, loads, tests, exchanges, constructs, publishes,
  Consumer, idle, probes, moves, destroys, releases, advances, pop_failed,
}
use flux_foundry.Queue.Mpsc.System.{System, pop_access}
use flux_foundry.Queue.Mpsc.Inv.{ahead, emptied, released, Works, Reads, Takes, Inv}

module _ {A : Type 0} {cap n : ℕ} {s : System A} (inv : Inv cap n s) (pos : 0 < cap)
    (small : n < 2 ^ 62) where
  -- What an access of the consumer leaves of the producers.
  Works-pop :
      (q : Mpsc A) (rel p : ℕ) (pc : Producer A)
      → q.tail ≡ s.queue.tail
      → released s ≤ rel
      → ((u : ℕ) → s.published u ≡ false → released s ≤ u → u < s.queue.tail → rel ≤ u)
      → ((u : ℕ)
          → s.published u ≡ false
          → released s ≤ u
          → u < s.queue.tail
          → q.storage (u % cap) ≡ s.queue.storage (u % cap))
      → Works cap s.queue (released s) s.published s.owner s.sent p pc
      → Works cap q rel s.published s.owner s.sent p pc
  Works-pop q rel p (rests done) e l f g w = tt
  Works-pop q rel p (loads m obj) e l f g w = tt
  Works-pop q rel p (tests m obj t) e l f g w = ground (arith, e, w)
  Works-pop q rel p (exchanges m obj t) e l f g w = ground (arith, e, l, w)
  Works-pop q rel p (constructs obj t) e l f g w = record {
    taken = ground (arith, e, w.taken);
    kept = f t w.unpublished w.kept w.taken;
    unpublished = w.unpublished;
    owned = w.owned;
    sends = w.sends;
  }
  Works-pop q rel p (publishes obj t) e l f g (w, o) = (
    record {
      taken = ground (arith, e, w.taken);
      kept = f t w.unpublished w.kept w.taken;
      unpublished = w.unpublished;
      owned = w.owned;
      sends = w.sends;
    },
    g t w.unpublished w.kept w.taken ∙ o,
  )

  -- A step of the consumer that writes nothing and clears nothing.
  pub quiet-Inv :
      (c : Consumer A)
      → ahead s.consumer ≡ 0
      → ahead c ≡ 0
      → emptied s.consumer ≡ false
      → Takes cap s.queue s.published s.sent c
      → Inv cap (suc n) (record s { consumer = c })
  quiet-Inv c a b e w = record {
    few = omega (arith, inv.few);
    order = ground (arith, inv.order, a, b);
    room = ground (arith, inv.room, a, b);
    full = λ i h k. inv.full i (ground (arith, a, b)) k;
    free = λ i h k. inv.free i h (ground (arith, a, b));
    later = inv.later;
    items = λ i h k f g. inv.items i (ground (arith, a, b)) k f (ground (arith, e));
    sent_some = inv.sent_some;
    got = inv.got;
    works = λ p.
        Works-pop s.queue (s.queue.head + ahead c) p (s.producers p) refl (ground (arith, a, b))
          (λ u f g h. ground (arith, a, b)) (λ u f g h. refl) (inv.works p);
    takes = w;
  }

  destroy-Inv :
      (seq : ℕ) (res : Option A)
      → destroys seq res ≡ s.consumer
      → Takes cap s.queue s.published s.sent (destroys seq res)
      → Inv cap (suc n) (pop_access cap (destroys seq res) s)
  destroy-Inv seq res c (r, e) = record {
    few = omega (arith, inv.few);
    order = ground (arith, inv.order, a);
    room = ground (arith, inv.room, a);
    full = λ i h k. inv.full i (ground (arith, a)) k;
    free = λ i h k. inv.free i h (ground (arith, a));
    later = inv.later;
    items = λ i h k f g. ground (
      arith,
      a,
      r.before,
      inv.room,
      g,
      inv.items i (ground (arith, a)) k f,
      ap emptied c,
      cell-ne cap s.queue.head i,
    );
    sent_some = inv.sent_some;
    got = inv.got;
    works = λ p.
        Works-pop (record s.queue { storage = update s.queue.storage (s.queue.head % cap) none })
          (s.queue.head + 0) p (s.producers p) refl (ground (arith, a))
          (λ u f g h. ground (arith, a))
          (λ u f g h. ground (arith, a, r.ready, f, g, h, inv.room, cell-ne cap s.queue.head u))
          (inv.works p);
    takes = (record { before = r.before; ready = r.ready; current = r.current }, e);
  }
    where
      a : ahead s.consumer ≡ 0
      a = sym (ap ahead c)

  release-Inv :
      (seq : ℕ) (res : Option A)
      → releases seq res ≡ s.consumer
      → Takes cap s.queue s.published s.sent (releases seq res)
      → Inv cap (suc n) (pop_access cap (releases seq res) s)
  release-Inv seq res c (r, e) = record {
    few = omega (arith, inv.few);
    order = ground (arith, r.before);
    room = ground (arith, inv.room, a);
    full = λ i h k.
        ground (arith, a, inv.room, inv.full i (ground (arith, a)) k, cell-ne cap s.queue.head i);
    free = λ i h k. elim (dec_lt i (s.queue.head + cap)) [
      | yes near ↦ ground (arith, a, r.before, inv.free i h, cell-ne cap s.queue.head i)
      | no far ↦
          ground
            (arith, a, r.before, r.ready, r.current, inv.full s.queue.head, next_round cap i pos)
    ];
    later = inv.later;
    items = λ i h k f g. ground (arith, a, inv.items i (ground (arith, a)) k f);
    sent_some = inv.sent_some;
    got = inv.got;
    works = λ p.
        Works-pop
          (record s.queue { ready = update s.queue.ready (s.queue.head % cap) (add64 seq 1) })
          (s.queue.head + 1) p (s.producers p) refl (ground (arith, a))
          (λ u f g h. ground (arith, a, r.ready, f, g, h)) (λ u f g h. refl) (inv.works p);
    takes = e;
  }
    where
      a : ahead s.consumer ≡ 0
      a = sym (ap ahead c)

  advance-Inv :
      (res : Option A)
      → advances res ≡ s.consumer
      → Takes cap s.queue s.published s.sent (advances res)
      → Inv cap (suc n) (pop_access cap (advances res) s)
  advance-Inv res c e = record {
    few = omega (arith, inv.few);
    order = ground (arith, inv.order, inv.few, a);
    room = ground (arith, inv.room, inv.order, inv.few, a);
    full = λ i h k. inv.full i (ground (arith, a, inv.order, inv.few)) k;
    free = λ i h k. inv.free i h (ground (arith, a, inv.order, inv.few));
    later = inv.later;
    items = λ i h k f g.
        inv.items i (ground (arith, a, inv.order, inv.few)) k f (ground (arith, ap emptied c));
    sent_some = inv.sent_some;
    got = λ i h. ground (arith, e, inv.got i, inv.order, inv.few, a);
    works = λ p.
        Works-pop (record s.queue { head = add64 s.queue.head 1 }) (add64 s.queue.head 1 + 0) p
          (s.producers p) refl (ground (arith, a, inv.order, inv.few))
          (λ u f g h. ground (arith, a, inv.order, inv.few)) (λ u f g h. refl) (inv.works p);
    takes = tt;
  }
    where
      a : ahead s.consumer ≡ 1
      a = sym (ap ahead c)

  pub pop-Inv :
      (c : Consumer A)
      → c ≡ s.consumer
      → Takes cap s.queue s.published s.sent c
      → Inv cap (suc n) (pop_access cap c s)
  pop-Inv (idle res) e w = quiet-Inv (idle res) (sym (ap ahead e)) refl (sym (ap emptied e)) tt
  pop-Inv (probes m) e w = elim (Bool-cases (s.queue.ready (s.queue.head % cap) % 2 == 0)) [
    | inl y ↦ rw y (failed m)
    | inr z ↦ rw z (
        quiet-Inv (moves (s.queue.ready (s.queue.head % cap))) (sym (ap ahead e)) refl
          (sym (ap emptied e)) (found (ground (arith, z)) (sym (ap ahead e))))
  ]
    where
      failed : (k : Mode) → Inv cap (suc n) (record s { consumer = pop_failed k })
      failed attempt = quiet-Inv (idle none) (sym (ap ahead e)) refl (sym (ap emptied e)) tt
      failed wait = quiet-Inv (probes wait) (sym (ap ahead e)) refl (sym (ap emptied e)) tt

      found :
          s.queue.ready (s.queue.head % cap) % 2 ≢ 0
          → ahead s.consumer ≡ 0
          → Reads cap s.queue s.published (s.queue.ready (s.queue.head % cap))
      found odd a = record {
        before = ground (arith, odd, a, inv.order, inv.free s.queue.head);
        ready = ground (arith, odd, a, inv.order, inv.free s.queue.head, inv.full s.queue.head);
        current = refl;
      }
  pop-Inv (moves seq) e w =
      quiet-Inv (destroys seq (s.queue.storage (s.queue.head % cap))) (sym (ap ahead e)) refl
        (sym (ap emptied e))
        (
          w,
          inv.items s.queue.head (ground (arith, ap ahead e)) w.before w.ready
              (ground (arith, ap emptied e)),
        )
  pop-Inv (destroys seq res) e w = destroy-Inv seq res e w
  pop-Inv (releases seq res) e w = release-Inv seq res e w
  pop-Inv (advances res) e w = advance-Inv res e w
