-- ===== src/Queue/Mpsc/Producers.antt =====
-- The accesses of the producers keep the invariant.
use flux_foundry.Prelude.{
  ℕ, suc, ◌+◌, ◌%◌, ◌^◌, ◌<◌, ◌≡◌, inl, inr, Bool, false, ◌&&◌, some, ◌==◌, add64, update,
  Bool-cases, arith,
}
use flux_foundry.Queue.Mpsc.{
  Mode, attempt, wait, Producer, rests, loads, tests, exchanges, constructs, publishes, seq_of,
  may_exchange, emplace_failed,
}
use flux_foundry.Queue.Mpsc.System.{System, log_sent, log_owner, emplace_access}
use flux_foundry.Queue.Mpsc.Inv.{released, Works, Inv}
use flux_foundry.Queue.Mpsc.Tickets.{tail_room, still-Inv, take-Inv}
use flux_foundry.Queue.Mpsc.Writes.{construct-Inv, publish-Inv}

module _ {A : Type 0} {cap n : ℕ} {s : System A} (inv : Inv cap n s) (pos : 0 < cap)
    (small : n < 2 ^ 62) where
  failed-Inv :
      (p : ℕ) (m : Mode) (obj : A)
      → Inv cap (suc n) (record s {
        producers = update s.producers p (emplace_failed m obj);
        sent = log_sent (emplace_failed m obj) s.sent;
        owner = log_owner p (emplace_failed m obj) s.owner;
      })
  failed-Inv p attempt obj = still-Inv inv pos small p (rests false) tt
  failed-Inv p wait obj = still-Inv inv pos small p (loads wait obj) tt

  -- The exchange finds the tail that was loaded.
  take-at :
      (p t : ℕ) (obj : A)
      → t ≡ s.queue.tail
      → t < released s + cap
      → Inv cap (suc n) (record s {
        queue = record s.queue { tail = add64 t 1 };
        producers = update s.producers p (constructs obj t);
        sent = update s.sent t (some obj);
        owner = update s.owner t p;
      })
  take-at p t obj same h = rw same (take-Inv inv pos small p obj (ground arith))

  pub emplace-Inv :
      (p : ℕ) (spurious : Bool) (pc : Producer A)
      → Works cap s.queue (released s) s.published s.owner s.sent p pc
      → Inv cap (suc n) (emplace_access cap p spurious pc s)
  emplace-Inv p spurious (rests done) w = still-Inv inv pos small p (rests done) tt
  emplace-Inv p spurious (loads m obj) w =
      still-Inv inv pos small p (tests m obj s.queue.tail) (ground arith)
  emplace-Inv p spurious (tests m obj t) w =
      elim (Bool-cases (s.queue.ready (t % cap) == seq_of cap t)) [
        | inl y ↦ rw y (
            still-Inv inv pos small p (exchanges m obj t)
              (ground (arith, w, y, tail_room inv pos small)))
        | inr z ↦ rw z (failed-Inv p m obj)
      ]
  emplace-Inv p spurious (exchanges m obj t) w =
      elim (Bool-cases ((s.queue.tail == t) && may_exchange m spurious)) [
        | inl y ↦ rw y (take-at p t obj (ground (arith, w, y)) (ground (arith, w, y)))
        | inr z ↦ rw z (failed-Inv p m obj)
      ]
  emplace-Inv p spurious (constructs obj t) w = construct-Inv inv pos small p t obj w
  emplace-Inv p spurious (publishes obj t) (h, o) = publish-Inv inv pos small p t obj h o
