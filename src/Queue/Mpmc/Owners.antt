-- ===== src/Queue/Mpmc/Owners.antt =====
-- The accesses of a thread that holds a ticket of `mpmc_queue` keep the invariant: it builds or
-- destroys the object in its slot, and hands the slot on by a store to the sequence.
use mathlib.Core.Path.{subst}
use native.Mathlib.Decide.{ℕ_discrete}
use flux_foundry.Prelude.{
  ℕ, ◌+◌, ◌*◌, ◌/◌, ◌%◌, ◌<◌, true, ◌≡◌, ◌≢◌, ◌⊎◌, inl, inr, refl, Option, none, some, update,
  arith, same_ticket, next_round,
}
use flux_foundry.Queue.Mpmc.{
  Mpmc, Pc, idle, emplace_seen, emplace_claimed, emplace_built, emplaced, pop_seen, pop_claimed,
  pop_moved, pop_destroyed, popped, set_sequence, set_storage,
}
use flux_foundry.Queue.Mpmc.Inv.{produces, consumes, seq, stored, Local, Inv}

module _ {A : Type 0} {cap n : ℕ} {q : Mpmc A} {l : ℕ → Option A} {pc : ℕ → Pc A}
    (inv : Inv cap n q l pc) (pos : 0 < cap) (p : ℕ) where
  -- The threads that hold no ticket on cell `i % cap` keep their facts when its storage changes.
  Local-set_storage :
      (i : ℕ) (o : Option A) (d : Pc A)
      → ((j : ℕ) → produces d ≡ some j → i % cap ≢ j % cap)
      → ((j : ℕ) → consumes d ≡ some j → i % cap ≢ j % cap)
      → Local cap q l d
      → Local cap (set_storage q (i % cap) o) l d
  Local-set_storage i o (emplace_claimed obj j) np nc h = ground (arith, np j)
  Local-set_storage i o (emplace_built obj j) np nc h = ground (arith, np j)
  Local-set_storage i o (pop_claimed j) np nc h = ground (arith, nc j)
  Local-set_storage i o (pop_moved j res) np nc h = ground (arith, nc j)
  Local-set_storage i o (pop_destroyed j res) np nc h = ground (arith, nc j)
  Local-set_storage i o d np nc h = ground arith

  Local-set_sequence :
      (i k : ℕ) (d : Pc A)
      → ((j : ℕ) → produces d ≡ some j → i % cap ≢ j % cap)
      → ((j : ℕ) → consumes d ≡ some j → i % cap ≢ j % cap)
      → (i < q.tail) × (seq cap q i ≡ 2 * (i / cap)) × (k ≡ 2 * (i / cap) + 1)
        ⊎ (i < q.head) × (seq cap q i ≡ 2 * (i / cap) + 1) × (k ≡ 2 * (i / cap) + 2)
      → Local cap q l d
      → Local cap (set_sequence q (i % cap) k) l d
  Local-set_sequence i k (emplace_claimed obj j) np nc turn h = ground (arith, np j)
  Local-set_sequence i k (emplace_built obj j) np nc turn h = ground (arith, np j)
  Local-set_sequence i k (pop_claimed j) np nc turn h = ground (arith, nc j)
  Local-set_sequence i k (pop_moved j res) np nc turn h = ground (arith, nc j)
  Local-set_sequence i k (pop_destroyed j res) np nc turn h = ground (arith, nc j)
  Local-set_sequence i k (emplace_seen m obj j found) np nc turn h =
      ground (arith, same_ticket cap i j)
  Local-set_sequence i k (pop_seen m j found) np nc turn h = ground (arith, same_ticket cap i j)
  Local-set_sequence i k d np nc turn h = ground arith

  seq_of_producer :
      (j : ℕ) (d : Pc A) → Local cap q l d → produces d ≡ some j → seq cap q j ≡ 2 * (j / cap)
  seq_of_producer j idle h e = cc
  seq_of_producer j d h e = ground arith

  seq_of_consumer :
      (j : ℕ) (d : Pc A) → Local cap q l d → consumes d ≡ some j → seq cap q j ≡ 2 * (j / cap) + 1
  seq_of_consumer j idle h e = cc
  seq_of_consumer j d h e = ground arith

  -- The cell of a ticket that a thread holds is not held by another thread.
  record Apart (i : ℕ) (d : Pc A) : Type 0 where
    writes : (j : ℕ) → produces d ≡ some j → i % cap ≢ j % cap
    reads : (j : ℕ) → consumes d ≡ some j → i % cap ≢ j % cap

  Apart-of_producer :
      (i r : ℕ) → produces (pc p) ≡ some i → seq cap q i ≡ 2 * (i / cap) → p ≢ r → Apart i (pc r)
  Apart-of_producer i r held even other = record {
    writes = λ j e same. ground (
      arith,
      seq_of_producer j (pc r) (inv.local r),
      same_ticket cap i j,
      inv.one_producer p r i,
    );
    reads = λ j e same. ground (arith, seq_of_consumer j (pc r) (inv.local r));
  }

  Apart-of_consumer :
      (i r : ℕ)
      → consumes (pc p) ≡ some i
      → seq cap q i ≡ 2 * (i / cap) + 1
      → p ≢ r
      → Apart i (pc r)
  Apart-of_consumer i r held odd other = record {
    writes = λ j e same. ground (arith, seq_of_producer j (pc r) (inv.local r));
    reads = λ j e same. ground (
      arith,
      seq_of_consumer j (pc r) (inv.local r),
      same_ticket cap i j,
      inv.one_consumer p r i,
    );
  }

  pub build-Inv :
      (obj : A) (i : ℕ)
      → pc p ≡ emplace_claimed obj i
      → Inv cap (n + 1) (set_storage q (i % cap) (some obj)) l (update pc p (emplace_built obj i))
  build-Inv obj i here = record {
    few = omega (arith, inv.few);
    order = inv.order;
    within = inv.within;
    local = λ r. ground (arith, own, elsewhere r);
    one_producer = λ a b j ha hb.
        ground (arith, inv.one_producer a b j, inv.one_producer p b j, inv.one_producer a p j);
    one_consumer = λ a b j ha hb. ground (arith, inv.one_consumer a b j);
    published = λ j h. ground (arith, inv.published j);
    holding = λ j h k. ground (arith, own, inv.holding j);
    freed = λ j h. ground (arith, inv.freed j);
    logged = inv.logged;
    pending = λ j h k. elim (inv.pending j h k) [
      | inl e ↦ inl (ground (arith, e))
      | inr (r, e) ↦ inr (r, ground (arith, e))
    ];
    vacant = λ j h k. elim (inv.vacant j h k) [
      | inl e ↦ inl (ground (arith, e))
      | inr (r, e, f) ↦ inr (r, e, ground (arith, f))
    ];
  }
    where
      own : Local cap q l (emplace_claimed obj i)
      own = subst (Local cap q l) here (inv.local p)

      elsewhere : (r : ℕ) → p ≢ r → Local cap (set_storage q (i % cap) (some obj)) l (pc r)
      elsewhere r other =
          let apart = Apart-of_producer i r (ground arith) own.1 other in
          Local-set_storage i (some obj) (pc r) apart.writes apart.reads (inv.local r)

  pub publish-Inv :
      (obj : A) (i : ℕ)
      → pc p ≡ emplace_built obj i
      → Inv cap
          (n + 1)
          (set_sequence q (i % cap) (2 * (i / cap) + 1))
          l
          (update pc p (emplaced true))
  publish-Inv obj i here = record {
    few = omega (arith, inv.few);
    order = inv.order;
    within = inv.within;
    local = λ r. ground (arith, own, elsewhere r);
    one_producer = λ a b j ha hb. ground (arith, inv.one_producer a b j);
    one_consumer = λ a b j ha hb. ground (arith, inv.one_consumer a b j);
    published = λ j h. ground (arith, own, inv.published j, same_ticket cap i j);
    holding = λ j h k. ground (arith, own, inv.holding j, same_ticket cap i j);
    freed = λ j h. ground (arith, inv.freed j);
    logged = inv.logged;
    pending = λ j h k. elim (inv.pending j h k) [
      | inl e ↦ inl (ground (arith, own, same_ticket cap i j))
      | inr (r, e) ↦ elim (ℕ_discrete p r) [
        | yes same ↦ inl (ground arith)
        | no other ↦ inr (r, ground arith)
      ]
    ];
    vacant = λ j h k. elim (inv.vacant j h k) [
      | inl e ↦ inl (ground (arith, own, same_ticket cap i j))
      | inr (r, e, f) ↦ inr (r, e, ground arith)
    ];
  }
    where
      own : Local cap q l (emplace_built obj i)
      own = subst (Local cap q l) here (inv.local p)

      elsewhere :
          (r : ℕ) → p ≢ r → Local cap (set_sequence q (i % cap) (2 * (i / cap) + 1)) l (pc r)
      elsewhere r other =
          let apart = Apart-of_producer i r (ground arith) own.1 other in
          Local-set_sequence i _ (pc r) apart.writes apart.reads (inl (own.0, own.1, refl))
            (inv.local r)

  pub move-Inv :
      (i : ℕ)
      → pc p ≡ pop_claimed i
      → Inv cap (n + 1) q l (update pc p (pop_moved i (stored cap q i)))
  move-Inv i here = record {
    few = omega (arith, inv.few);
    order = inv.order;
    within = inv.within;
    local = λ r. ground (arith, own, inv.local r);
    one_producer = λ a b j ha hb. ground (arith, inv.one_producer a b j);
    one_consumer = λ a b j ha hb.
        ground (arith, inv.one_consumer a b j, inv.one_consumer p b j, inv.one_consumer a p j);
    published = inv.published;
    holding = inv.holding;
    freed = inv.freed;
    logged = inv.logged;
    pending = λ j h k. elim (inv.pending j h k) [
      | inl e ↦ inl (ground (arith, e))
      | inr (r, e) ↦ inr (r, ground (arith, e))
    ];
    vacant = λ j h k. elim (inv.vacant j h k) [
      | inl e ↦ inl (ground (arith, e))
      | inr (r, e, f) ↦ inr (r, e, ground (arith, f))
    ];
  }
    where
      own : Local cap q l (pop_claimed i)
      own = subst (Local cap q l) here (inv.local p)

  pub destroy-Inv :
      (i : ℕ) (res : Option A)
      → pc p ≡ pop_moved i res
      → Inv cap (n + 1) (set_storage q (i % cap) none) l (update pc p (pop_destroyed i res))
  destroy-Inv i res here = record {
    few = omega (arith, inv.few);
    order = inv.order;
    within = inv.within;
    local = λ r. ground (arith, own, elsewhere r);
    one_producer = λ a b j ha hb. ground (arith, inv.one_producer a b j);
    one_consumer = λ a b j ha hb.
        ground (arith, inv.one_consumer a b j, inv.one_consumer p b j, inv.one_consumer a p j);
    published = λ j h. ground (arith, inv.published j);
    holding = λ j h k. ground (arith, own, inv.holding j, same_ticket cap i j);
    freed = λ j h. ground (arith, inv.freed j);
    logged = inv.logged;
    pending = λ j h k. elim (inv.pending j h k) [
      | inl e ↦ inl (ground (arith, e))
      | inr (r, e) ↦ inr (r, ground (arith, e))
    ];
    vacant = λ j h k. elim (inv.vacant j h k) [
      | inl e ↦ inl (ground (arith, e))
      | inr (r, e, f) ↦ inr (r, e, ground (arith, f))
    ];
  }
    where
      own : Local cap q l (pop_moved i res)
      own = subst (Local cap q l) here (inv.local p)

      elsewhere : (r : ℕ) → p ≢ r → Local cap (set_storage q (i % cap) none) l (pc r)
      elsewhere r other =
          let apart = Apart-of_consumer i r (ground arith) own.1 other in
          Local-set_storage i none (pc r) apart.writes apart.reads (inv.local r)

  pub release-Inv :
      (i : ℕ) (res : Option A)
      → pc p ≡ pop_destroyed i res
      → Inv cap (n + 1) (set_sequence q (i % cap) (2 * (i / cap) + 2)) l (update pc p (popped res))
  release-Inv i res here = record {
    few = omega (arith, inv.few);
    order = inv.order;
    within = inv.within;
    local = λ r. ground (arith, own, elsewhere r);
    one_producer = λ a b j ha hb. ground (arith, inv.one_producer a b j);
    one_consumer = λ a b j ha hb. ground (arith, inv.one_consumer a b j);
    published = λ j h. ground (arith, inv.published j);
    holding = λ j h k. ground (arith, inv.holding j);
    freed = λ j h. ground (arith, own, inv.freed j, same_ticket cap i j);
    logged = inv.logged;
    pending = λ j h k. elim (inv.pending j h k) [
      | inl e ↦ inl (ground (arith, own, same_ticket cap i j))
      | inr (r, e) ↦ inr (r, ground arith)
    ];
    vacant = λ j h k. elim (inv.vacant j h k) [
      | inl e ↦ inl (ground (arith, own))
      | inr (r, e, f) ↦ elim (ℕ_discrete p r) [
        | yes same ↦ inl (ground (arith, next_round cap j pos e))
        | no other ↦ inr (r, e, ground arith)
      ]
    ];
  }
    where
      own : Local cap q l (pop_destroyed i res)
      own = subst (Local cap q l) here (inv.local p)

      elsewhere :
          (r : ℕ) → p ≢ r → Local cap (set_sequence q (i % cap) (2 * (i / cap) + 2)) l (pc r)
      elsewhere r other =
          let apart = Apart-of_consumer i r (ground arith) own.1 other in
          Local-set_sequence i _ (pc r) apart.writes apart.reads (inr (own.0, own.1, refl))
            (inv.local r)
