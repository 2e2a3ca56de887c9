-- ===== src/Queue/Mpmc/System.antt =====
-- Any number of threads that call one `mpmc_queue`, interleaved in any order, and the invariant in
-- every state that they reach.
use native.Mathlib.Nat.{div-le_self, div-eq_of_lt}
use native.Mathlib.Numerals.{add-one}
use flux_foundry.Prelude.{
  ℕ, zero, suc, ◌+◌, ◌*◌, ◌/◌, ◌^◌, ◌<◌, Bool, true, false, ◌&&◌, Bool-cases, ◌==◌, ◌∙◌, ◌≡◌, refl,
  inl, inr, Option, none, update, arith, add64,
}
use flux_foundry.Queue.Mpmc.{
  Mpmc, Mode, Pc, idle, emplace, emplace_at, emplace_seen, emplace_claimed, emplace_built, emplaced,
  pop, pop_at, pop_seen, pop_claimed, pop_moved, pop_destroyed, popped, step, init, empty_seq,
  full_seq, gives_up, exchanges, emplace_failed, pop_failed,
}
use flux_foundry.Queue.Mpmc.Inv.{produces, consumes, log, Local, Inv}
use flux_foundry.Queue.Mpmc.Claims.{empty_seq_exact, full_seq_exact, claim_tail-Inv, claim_head-Inv}
use flux_foundry.Queue.Mpmc.Owners.{build-Inv, publish-Inv, move-Inv, destroy-Inv, release-Inv}

-- The queue, where each thread stands, and the history of the claimed tickets.
pub record System (A : Type 0) : Type 0 where
  pub queue : Mpmc A
  pub pc : ℕ → Pc A
  pub history : ℕ → Option A

module _ {A : Type 0} where
  -- A thread that has returned from its last call.
  abbrev pub IsResting : Pc A → Type 0
  IsResting idle = Unit
  IsResting (emplaced done) = Unit
  IsResting (popped res) = Unit
  IsResting _ = ⊥

  abbrev pub start : System A
  start = record { queue = init; pc = λ _. idle; history = λ _. none }

  abbrev pub advance : System A → ℕ → Mpmc A × Pc A → System A
  advance s p (q, c) = record { queue = q; pc = update s.pc p c; history = log s.history c }

pub data Step {A : Type 0} (cap : ℕ) (s : System A) : System A → Type 0 where
  call_emplace :
      (p : ℕ) (m : Mode) (obj : A)
      → IsResting (s.pc p)
      → Step cap s (record s { pc = update s.pc p (emplace m obj) })
  call_pop :
      (p : ℕ) (m : Mode) → IsResting (s.pc p) → Step cap s (record s { pc = update s.pc p (pop m) })
  access : (p : ℕ) (spurious : Bool) → Step cap s (advance s p (step cap spurious s.queue (s.pc p)))

-- The states that some threads reach in `n` steps.
pub data Reach {A : Type 0} (cap : ℕ) : ℕ → System A → Type 0 where
  initial : Reach cap zero start
  next : {n : ℕ} {s t : System A} → Reach cap n s → Step cap s t → Reach cap (suc n) t

Inv-init : {A : Type 0} (cap : ℕ) → Inv {A = A} cap 0 init (λ _. none) (λ _. idle)
Inv-init cap = record {
  few = omega arith;
  order = omega arith;
  within = omega arith;
  local = λ p. tt;
  one_producer = λ p r i ha hb. cc;
  one_consumer = λ p r i ha hb. cc;
  published = λ i h. absurd (omega arith);
  holding = λ i h k. refl;
  freed = λ i h. absurd (omega arith);
  logged = λ i h. absurd (omega arith);
  pending = λ i h k. absurd (omega arith);
  vacant = λ i h k. inl (omega (arith, div-eq_of_lt {n = i} {m = cap} (omega arith)));
}

pub produces_of_resting : {A : Type 0} (d : Pc A) → IsResting d → produces d ≡ none
produces_of_resting idle h = refl
produces_of_resting d h = ground arith

pub consumes_of_resting : {A : Type 0} (d : Pc A) → IsResting d → consumes d ≡ none
consumes_of_resting idle h = refl
consumes_of_resting d h = ground arith

exchanges-eq : (m : Mode) (spurious : Bool) (a b : ℕ) → exchanges m spurious a b ≡ true → a ≡ b
exchanges-eq Mode.attempt spurious a b h = ground arith
exchanges-eq Mode.wait spurious a b h = ground arith

module _ {A : Type 0} {cap n : ℕ} {q : Mpmc A} {l : ℕ → Option A} {pc : ℕ → Pc A}
    (inv : Inv cap n q l pc) (pos : 0 < cap) (small : n < 2 ^ 62) (p : ℕ) where
  -- A move of thread `p` that writes nothing and claims nothing.
  read-Inv :
      (c : Pc A)
      → produces (pc p) ≡ none
      → consumes (pc p) ≡ none
      → produces c ≡ none
      → consumes c ≡ none
      → Local cap q l c
      → Inv cap (n + 1) q l (update pc p c)
  read-Inv c op oc np nc own = record {
    few = omega (arith, inv.few);
    order = inv.order;
    within = inv.within;
    local = λ r. ground (arith, inv.local r);
    one_producer = λ a b i ha hb. ground (arith, inv.one_producer a b i);
    one_consumer = λ a b i ha hb. ground (arith, inv.one_consumer a b i);
    published = inv.published;
    holding = inv.holding;
    freed = inv.freed;
    logged = inv.logged;
    pending = λ j h k. elim (inv.pending j h k) [
      | inl e ↦ inl (ground (arith, e))
      | inr (r, e) ↦ inr (r, ground (arith, e))
    ];
    vacant = λ j h k. elim (inv.vacant j h k) [
      | inl e ↦ inl (ground (arith, e))
      | inr (r, e, f) ↦ inr (r, e, ground (arith, f))
    ];
  }

  abbrev After : Mpmc A × Pc A → Type 0
  After (q', c) = Inv cap (n + 1) q' (log l c) (update pc p c)

  failed-Inv :
      (m : Mode) (obj : A)
      → produces (pc p) ≡ none
      → consumes (pc p) ≡ none
      → After (q, emplace_failed m obj)
  failed-Inv Mode.attempt obj op oc = read-Inv (emplaced false) op oc refl refl tt
  failed-Inv Mode.wait obj op oc = read-Inv (emplace Mode.wait obj) op oc refl refl tt

  pop_failed-Inv :
      (m : Mode) → produces (pc p) ≡ none → consumes (pc p) ≡ none → After (q, pop_failed m)
  pop_failed-Inv Mode.attempt op oc = read-Inv (popped none) op oc refl refl tt
  pop_failed-Inv Mode.wait op oc = read-Inv (pop Mode.wait) op oc refl refl tt

  emplace_seen-Inv :
      (spurious : Bool) (m : Mode) (obj : A) (i found : ℕ)
      → pc p ≡ emplace_seen m obj i found
      → After (step cap spurious q (emplace_seen m obj i found))
  unfolding step
  emplace_seen-Inv spurious m obj i found here =
      elim (Bool-cases (gives_up m found (empty_seq cap i))) [
        | inl full ↦ rw full (read-Inv (emplaced false) op oc refl refl tt)
        | inr open_ ↦
            elim (Bool-cases ((found == empty_seq cap i) && exchanges m spurious q.tail i)) [
              | inl won ↦
                  rw (open_, won)
                    (taken (ground (arith, exchanges-eq m spurious q.tail i)) (ground arith))
              | inr lost ↦ rw (open_, lost) (failed-Inv m obj op oc)
            ]
      ]
    where
      op : produces (pc p) ≡ none
      op = rw here

      oc : consumes (pc p) ≡ none
      oc = rw here

      taken :
          q.tail ≡ i
          → found ≡ empty_seq cap i
          → After (record q { tail = add64 i 1 }, emplace_claimed obj i)
      taken e f =
          let bound : i < 2 ^ 62 = omega (arith, inv.few) in
          rw (let one : add64 i 1 ≡ i + 1 = omega arith in one) (
            rw (← e) (
              claim_tail-Inv inv pos small p m obj found (rw e here)
                (rw e (f ∙ empty_seq_exact cap i bound))))

  pop_seen-Inv :
      (spurious : Bool) (m : Mode) (i found : ℕ)
      → pc p ≡ pop_seen m i found
      → After (step cap spurious q (pop_seen m i found))
  unfolding step
  pop_seen-Inv spurious m i found here = elim (Bool-cases (gives_up m found (full_seq cap i))) [
    | inl none_left ↦ rw none_left (read-Inv (popped none) op oc refl refl tt)
    | inr open_ ↦ elim (Bool-cases ((found == full_seq cap i) && exchanges m spurious q.head i)) [
      | inl won ↦
          rw (open_, won) (taken (ground (arith, exchanges-eq m spurious q.head i)) (ground arith))
      | inr lost ↦ rw (open_, lost) (pop_failed-Inv m op oc)
    ]
  ]
    where
      op : produces (pc p) ≡ none
      op = rw here

      oc : consumes (pc p) ≡ none
      oc = rw here

      taken :
          q.head ≡ i → found ≡ full_seq cap i → After (record q { head = add64 i 1 }, pop_claimed i)
      taken e f =
          let bound : i < 2 ^ 62 = omega (arith, inv.few, inv.order) in
          rw (let one : add64 i 1 ≡ i + 1 = omega arith in one) (
            rw (← e) (
              claim_head-Inv inv pos small p m found (rw e here)
                (rw e (f ∙ full_seq_exact cap i bound))))

  -- An access of thread `p`, wherever it stands.
  step-Inv : (spurious : Bool) (d : Pc A) → pc p ≡ d → After (step cap spurious q d)
  unfolding step
  step-Inv spurious idle here = read-Inv idle (rw here) (rw here) refl refl tt
  step-Inv spurious (emplaced done) here = read-Inv (emplaced done) (rw here) (rw here) refl refl tt
  step-Inv spurious (popped res) here = read-Inv (popped res) (rw here) (rw here) refl refl tt
  step-Inv spurious (emplace m obj) here =
      read-Inv (emplace_at m obj q.tail) (rw here) (rw here) refl refl (omega arith)
  step-Inv spurious (emplace_at m obj i) here =
      read-Inv (emplace_seen m obj i _) (rw here) (rw here) refl refl (ground (arith, inv.local p))
  step-Inv spurious (emplace_seen m obj i found) here = emplace_seen-Inv spurious m obj i found here
  step-Inv spurious (emplace_claimed obj i) here = build-Inv inv pos p obj i here
  step-Inv spurious (emplace_built obj i) here =
      rw (seq_after i (ground (arith, inv.local p, inv.few))) (publish-Inv inv pos p obj i here)
    where
      seq_after : (i : ℕ) → i < 2 ^ 62 → add64 (empty_seq cap i) 1 ≡ 2 * (i / cap) + 1
      seq_after i h = full_seq_exact cap i h
  step-Inv spurious (pop m) here =
      read-Inv (pop_at m q.head) (rw here) (rw here) refl refl (omega arith)
  step-Inv spurious (pop_at m i) here =
      read-Inv (pop_seen m i _) (rw here) (rw here) refl refl (ground (arith, inv.local p))
  step-Inv spurious (pop_seen m i found) here = pop_seen-Inv spurious m i found here
  step-Inv spurious (pop_claimed i) here = move-Inv inv pos p i here
  step-Inv spurious (pop_moved i res) here = destroy-Inv inv pos p i res here
  step-Inv spurious (pop_destroyed i res) here =
      rw (seq_after i (ground (arith, inv.local p, inv.few, inv.order)))
        (release-Inv inv pos p i res here)
    where
      seq_after : (i : ℕ) → i < 2 ^ 62 → add64 (full_seq cap i) 1 ≡ 2 * (i / cap) + 2
      seq_after i h = ground (arith, full_seq_exact cap i h, div-le_self i cap)

-- Every access and every call keeps the invariant.
pub Step-Inv :
    {A : Type 0} {cap n : ℕ} {s t : System A}
    → 0 < cap
    → n < 2 ^ 62
    → Inv cap n s.queue s.history s.pc
    → Step cap s t
    → Inv cap (n + 1) t.queue t.history t.pc
Step-Inv pos small inv (call_emplace p m obj rest) =
    read-Inv inv pos small p (emplace m obj) (produces_of_resting _ rest)
      (consumes_of_resting _ rest) refl refl tt
Step-Inv pos small inv (call_pop p m rest) =
    read-Inv inv pos small p (pop m) (produces_of_resting _ rest) (consumes_of_resting _ rest) refl
      refl tt
Step-Inv {s = s} pos small inv (access p spurious) = step-Inv inv pos small p spurious (s.pc p) refl

pub Reach-Inv :
    {A : Type 0} {cap n : ℕ} {s : System A}
    → 0 < cap
    → n < 2 ^ 62
    → Reach cap n s
    → Inv cap n s.queue s.history s.pc
Reach-Inv {cap = cap} pos small initial = Inv-init cap
Reach-Inv {n = suc n} pos small (next r st) =
    rw (add-one n) at (Step-Inv pos (omega arith) (Reach-Inv pos (omega arith) r) st)
