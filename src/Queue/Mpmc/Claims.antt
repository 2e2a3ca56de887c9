-- ===== src/Queue/Mpmc/Claims.antt =====
-- The two compare-exchanges of `mpmc_queue` keep the invariant: a thread takes a ticket.
use native.Mathlib.Nat.{div-le_self}
use native.Mathlib.Decide.{dec_lt, ℕ_discrete}
use mathlib.Core.Path.{subst}
use flux_foundry.Prelude.{
  ℕ, ◌+◌, ◌-◌, ◌*◌, ◌/◌, ◌^◌, ◌<◌, ◌≡◌, inl, inr, Option, some, update, arith, next_round,
}
use flux_foundry.Queue.Mpmc.{
  Mpmc, Mode, Pc, idle, emplace_seen, emplace_claimed, pop_seen, pop_claimed, empty_seq, full_seq,
}
use flux_foundry.Queue.Mpmc.Inv.{produces, consumes, seq, Local, Inv}

-- Below the bound on the steps no sequence wraps.
pub empty_seq_exact : (cap i : ℕ) → i < 2 ^ 62 → empty_seq cap i ≡ 2 * (i / cap)
empty_seq_exact cap i h = omega (arith, div-le_self i cap)

pub full_seq_exact : (cap i : ℕ) → i < 2 ^ 62 → full_seq cap i ≡ 2 * (i / cap) + 1
full_seq_exact cap i h = omega (arith, div-le_self i cap)

module _ {A : Type 0} {cap n : ℕ} {q : Mpmc A} {l : ℕ → Option A} {pc : ℕ → Pc A}
    (inv : Inv cap n q l pc) (pos : 0 < cap) (small : n < 2 ^ 62) (p : ℕ) where
  -- A slot that is ready for ticket `i` is free of ticket `i - cap`.
  room : (i : ℕ) → seq cap q i ≡ 2 * (i / cap) → i < q.head + cap
  room i e = elim (dec_lt i cap) [
    | yes low ↦ omega arith
    | no high ↦
        let (cell, turn) = next_round cap i pos (omega arith) in
        omega (arith, inv.freed (i - cap) (rw (cell, seq) (omega (arith, e, turn))))
  ]

  Local-claim_tail :
      (obj : A) (d : Pc A)
      → Local cap q l d
      → Local cap (record q { tail = q.tail + 1 }) (update l q.tail (some obj)) d
  Local-claim_tail obj idle h = tt
  Local-claim_tail obj d h = ground (arith, inv.order)

  Local-claim_head : (d : Pc A) → Local cap q l d → Local cap (record q { head = q.head + 1 }) l d
  Local-claim_head idle h = tt
  Local-claim_head d h = ground (arith, inv.order)

  produces-lt : (i : ℕ) (d : Pc A) → Local cap q l d → produces d ≡ some i → i < q.tail
  produces-lt i idle h e = cc
  produces-lt i d h e = ground arith

  consumes-lt : (i : ℕ) (d : Pc A) → Local cap q l d → consumes d ≡ some i → i < q.head
  consumes-lt i idle h e = cc
  consumes-lt i d h e = ground arith

  pub claim_tail-Inv :
      (m : Mode) (obj : A) (found : ℕ)
      → pc p ≡ emplace_seen m obj q.tail found
      → found ≡ 2 * (q.tail / cap)
      → Inv cap
          (n + 1)
          (record q { tail = q.tail + 1 })
          (update l q.tail (some obj))
          (update pc p (emplace_claimed obj q.tail))
  claim_tail-Inv m obj found here fresh = record {
    few = omega (arith, inv.few);
    order = omega (arith, inv.order);
    within = omega (arith, room q.tail ready);
    local = λ r. ground (arith, Local-claim_tail obj (pc r) (inv.local r), ready);
    one_producer = λ a b i ha hb. ground (
      arith,
      inv.one_producer a b i,
      produces-lt i (pc a) (inv.local a),
      produces-lt i (pc b) (inv.local b),
    );
    one_consumer = λ a b i ha hb. ground (arith, inv.one_consumer a b i);
    published = λ i h. omega (arith, inv.published i h);
    holding = λ i h k. ground (arith, inv.holding i h k, inv.published i h);
    freed = inv.freed;
    logged = λ i h. ground (arith, inv.logged i);
    pending = λ i h k. elim (ℕ_discrete i q.tail) [
      | yes e ↦ inr (p, ground arith)
      | no ne ↦ elim (inv.pending i h (omega arith)) [
        | inl e ↦ inl e
        | inr (r, e) ↦ inr (r, ground arith)
      ]
    ];
    vacant = λ i h k. elim (inv.vacant i (omega arith) k) [
      | inl e ↦ inl e
      | inr (r, e, f) ↦ inr (r, e, ground arith)
    ];
  }
    where
      own : Local cap q l (emplace_seen m obj q.tail found)
      own = subst (Local cap q l) here (inv.local p)

      ready : seq cap q q.tail ≡ 2 * (q.tail / cap)
      ready = own.1 (omega arith) fresh

  pub claim_head-Inv :
      (m : Mode) (found : ℕ)
      → pc p ≡ pop_seen m q.head found
      → found ≡ 2 * (q.head / cap) + 1
      → Inv cap (n + 1) (record q { head = q.head + 1 }) l (update pc p (pop_claimed q.head))
  claim_head-Inv m found here fresh = record {
    few = omega (arith, inv.few);
    order = omega (arith, inv.published q.head ready);
    within = omega (arith, inv.within);
    local =
        λ r. ground (arith, Local-claim_head (pc r) (inv.local r), ready, inv.holding q.head ready);
    one_producer = λ a b i ha hb. ground (arith, inv.one_producer a b i);
    one_consumer = λ a b i ha hb. ground (
      arith,
      inv.one_consumer a b i,
      consumes-lt i (pc a) (inv.local a),
      consumes-lt i (pc b) (inv.local b),
    );
    published = inv.published;
    holding = λ i h k. inv.holding i h (omega arith);
    freed = λ i h. omega (arith, inv.freed i h);
    logged = inv.logged;
    pending = λ i h k. elim (inv.pending i (omega arith) k) [
      | inl e ↦ inl e
      | inr (r, e) ↦ inr (r, ground arith)
    ];
    vacant = λ i h k. elim (ℕ_discrete i (q.head + cap)) [
      | yes e ↦ inr (p, omega arith, ground arith)
      | no ne ↦ elim (inv.vacant i h (omega arith)) [
        | inl e ↦ inl e
        | inr (r, e, f) ↦ inr (r, e, ground arith)
      ]
    ];
  }
    where
      own : Local cap q l (pop_seen m q.head found)
      own = subst (Local cap q l) here (inv.local p)

      ready : seq cap q q.head ≡ 2 * (q.head / cap) + 1
      ready = own.1 (omega arith) fresh
