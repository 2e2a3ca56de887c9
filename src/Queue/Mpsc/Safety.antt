-- ===== src/Queue/Mpsc/Safety.antt =====
-- What an `mpsc_queue` promises.
use flux_foundry.Prelude.{
  ℕ, zero, suc, ◌%◌, ◌^◌, ◌≤◌, ◌<◌, ◌≡◌, ◌≢◌, ◌⊎◌, inl, inr, refl, sym, ap, ◌∙◌, Bool, true, false,
  ◌&&◌, none, ◌==◌, if◌then◌else◌, cell-ne, arith,
}
use flux_foundry.Queue.Mpsc.{
  Producer, rests, loads, tests, exchanges, constructs, publishes, Consumer, idle, probes, moves,
  destroys, releases, advances,
}
use flux_foundry.Queue.Mpsc.System.{
  System, Step, call_emplace, emplaces, call_pop, pops, Reach, initial, next,
}
use flux_foundry.Queue.Mpsc.Inv.{ahead, emptied, released, Works, Takes, Inv, start-Inv}
use flux_foundry.Queue.Mpsc.Tickets.{still-Inv}
use flux_foundry.Queue.Mpsc.Producers.{emplace-Inv}
use flux_foundry.Queue.Mpsc.Pops.{quiet-Inv, pop-Inv}

module _ {A : Type 0} {cap : ℕ} (pos : 0 < cap) where
  step-Inv : {n : ℕ} {s t : System A} → n < 2 ^ 62 → Inv cap n s → Step cap s t → Inv cap (suc n) t
  step-Inv {s = s} small inv (call_emplace p m obj e) = still-Inv inv pos small p (loads m obj) tt
  step-Inv {s = s} small inv (emplaces p spurious) =
      emplace-Inv inv pos small p spurious (s.producers p) (inv.works p)
  step-Inv {s = s} small inv (call_pop m e) =
      quiet-Inv inv pos small (probes m) (ap ahead e) refl (ap emptied e) tt
  step-Inv {s = s} small inv pops = pop-Inv inv pos small s.consumer refl inv.takes

  pub Reach-Inv : (n : ℕ) (s : System A) → n < 2 ^ 62 → Reach cap n s → Inv cap n s
  Reach-Inv zero s small initial = start-Inv cap
  Reach-Inv (suc n) t small (next {s = s} r x) =
      step-Inv (omega arith) (Reach-Inv n s (omega arith) r) x

-- The threads, and which of them may touch the object in a slot.
pub data Thread : Type 0 where
  producing : (p : ℕ) → Thread
  consuming : Thread

module _ {A : Type 0} where
  abbrev pub at_ticket : ℕ → Producer A → ℕ → Bool
  at_ticket cap (constructs obj t) c = t % cap == c
  at_ticket cap (publishes obj t) c = t % cap == c
  at_ticket cap (rests done) c = false
  at_ticket cap (loads m obj) c = false
  at_ticket cap (tests m obj t) c = false
  at_ticket cap (exchanges m obj t) c = false

  abbrev pub at_head : Consumer A → Bool
  at_head (moves seq) = true
  at_head (destroys seq res) = true
  at_head (releases seq res) = true
  at_head (idle res) = false
  at_head (probes m) = false
  at_head (advances res) = false

  abbrev pub touches : ℕ → System A → Thread → ℕ → Bool
  touches cap s (producing p) c = at_ticket cap (s.producers p) c
  touches cap s consuming c = at_head s.consumer && (s.queue.head % cap == c)

  -- The ticket by which a thread touches a slot.
  record Ticket (cap : ℕ) (s : System A) (th : Thread) (c : ℕ) : Type 0 where
    at : ℕ
    above : released s ≤ at
    below : at < s.queue.tail
    cell : at % cap ≡ c
    whose : th ≡ (if s.published at then consuming else producing (s.owner at))
    only : (s.published at ≡ false) ⊎ (at ≡ s.queue.head)

  producer-Ticket :
      (cap n p c : ℕ) (s : System A) (pc : Producer A)
      → Works cap s.queue (released s) s.published s.owner s.sent p pc
      → at_ticket cap pc c ≡ true
      → Ticket cap s (producing p) c
  producer-Ticket cap n p c s (rests done) w e = ground arith
  producer-Ticket cap n p c s (loads m obj) w e = ground arith
  producer-Ticket cap n p c s (tests m obj t) w e = ground arith
  producer-Ticket cap n p c s (exchanges m obj t) w e = ground arith
  producer-Ticket cap n p c s (constructs obj t) w e = record {
    at = t;
    above = w.kept;
    below = w.taken;
    cell = ground (arith, e);
    whose = ground (arith, w.unpublished, w.owned);
    only = inl w.unpublished;
  }
  producer-Ticket cap n p c s (publishes obj t) (w, o) e = record {
    at = t;
    above = w.kept;
    below = w.taken;
    cell = ground (arith, e);
    whose = ground (arith, w.unpublished, w.owned);
    only = inl w.unpublished;
  }

  consumer-Ticket :
      (cap c : ℕ) (s : System A) (x : Consumer A)
      → x ≡ s.consumer
      → Takes cap s.queue s.published s.sent x
      → at_head x ≡ true
      → (s.queue.head % cap == c) ≡ true
      → Ticket cap s consuming c
  consumer-Ticket cap c s (moves seq) e r a h = record {
    at = s.queue.head;
    above = ground (arith, ap ahead e);
    below = r.before;
    cell = ground (arith, h);
    whose = ground (arith, r.ready);
    only = inr refl;
  }
  consumer-Ticket cap c s (destroys seq res) e (r, o) a h = record {
    at = s.queue.head;
    above = ground (arith, ap ahead e);
    below = r.before;
    cell = ground (arith, h);
    whose = ground (arith, r.ready);
    only = inr refl;
  }
  consumer-Ticket cap c s (releases seq res) e (r, o) a h = record {
    at = s.queue.head;
    above = ground (arith, ap ahead e);
    below = r.before;
    cell = ground (arith, h);
    whose = ground (arith, r.ready);
    only = inr refl;
  }
  consumer-Ticket cap c s (idle res) e r a h = ground arith
  consumer-Ticket cap c s (probes m) e r a h = ground arith
  consumer-Ticket cap c s (advances res) e r a h = ground arith

  Ticket-of :
      (cap n c : ℕ) (s : System A) (th : Thread)
      → Inv cap n s
      → touches cap s th c ≡ true
      → Ticket cap s th c
  Ticket-of cap n c s (producing p) inv e =
      producer-Ticket cap n p c s (s.producers p) (inv.works p) e
  Ticket-of cap n c s consuming inv e =
      consumer-Ticket cap c s s.consumer refl inv.takes (ground (arith, e)) (ground (arith, e))

  -- Two threads of an `mpsc_queue` that may touch the object of one slot are the same thread.
  pub mpsc_exclusive :
      (cap n c : ℕ) (s : System A) (a b : Thread)
      → 0 < cap
      → n < 2 ^ 62
      → Reach cap n s
      → touches cap s a c ≡ true
      → touches cap s b c ≡ true
      → a ≡ b
  mpsc_exclusive cap n c s a b pos small r ta tb =
      x.whose
      ∙ ap (λ t. if s.published t then consuming else producing (s.owner t)) same
      ∙ sym y.whose
    where
      inv : Inv cap n s
      inv = Reach-Inv pos n s small r

      x : Ticket cap s a c
      x = Ticket-of cap n c s a inv ta

      y : Ticket cap s b c
      y = Ticket-of cap n c s b inv tb

      same : x.at ≡ y.at
      same = ground (
        arith,
        x.above,
        x.below,
        x.cell,
        y.above,
        y.below,
        y.cell,
        inv.room,
        cell-ne cap x.at y.at,
        cell-ne cap y.at x.at,
      )

  -- The consumer of an `mpsc_queue` has taken, under each ticket below `_h`, the object that was
  -- sent under it: first in, first out.
  pub mpsc_fifo :
      (cap n i : ℕ) (s : System A)
      → 0 < cap
      → n < 2 ^ 62
      → Reach cap n s
      → i < s.queue.head
      → (s.received i ≡ s.sent i) × (s.sent i ≢ none)
  mpsc_fifo cap n i s pos small r h = (inv.got i h, inv.sent_some i (omega (arith, inv.order)))
    where
      inv : Inv cap n s
      inv = Reach-Inv pos n s small r
