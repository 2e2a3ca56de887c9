-- ===== src/Queue/Mpmc/Safety.antt =====
-- What any number of threads can rely on when they share one `mpmc_queue`.
use mathlib.Core.Path.{subst}
use flux_foundry.Prelude.{
  ℕ, ◌+◌, ◌*◌, ◌/◌, ◌%◌, ◌^◌, ◌≤◌, ◌<◌, ◌≡◌, ◌≢◌, ◌⊎◌, refl, Bool, Option, none, some, arith,
  same_ticket,
}
use flux_foundry.Queue.Mpmc.{
  Mpmc, Mode, Pc, idle, emplace_seen, emplace_claimed, emplace_built, pop_seen, pop_claimed,
  pop_moved, pop_destroyed, step,
}
use flux_foundry.Queue.Mpmc.Inv.{produces, consumes, log, seq, Local, Inv}
use flux_foundry.Queue.Mpmc.System.{System, Step, call_emplace, call_pop, access, Reach, Reach-Inv}

-- The ticket whose slot a thread may touch: from its exchange up to its store to the sequence.
abbrev pub touches : {A : Type 0} → Pc A → Option ℕ
touches (emplace_claimed obj i) = some i
touches (emplace_built obj i) = some i
touches (pop_claimed i) = some i
touches (pop_moved i res) = some i
touches (pop_destroyed i res) = some i
touches _ = none

module _ {A : Type 0} {cap n : ℕ} {q : Mpmc A} {l : ℕ → Option A} {pc : ℕ → Pc A}
    (inv : Inv cap n q l pc) where
  -- A thread that touches a slot holds its ticket for writing or for reading.
  record Holder (d : Pc A) (i : ℕ) : Type 0 where
    side :
        (produces d ≡ some i) × (seq cap q i ≡ 2 * (i / cap))
        ⊎ (consumes d ≡ some i) × (seq cap q i ≡ 2 * (i / cap) + 1)

  holder : (d : Pc A) (i : ℕ) → Local cap q l d → touches d ≡ some i → Holder d i
  holder idle i h e = cc
  holder d i h e = ground arith

  exclusive :
      (p r i j : ℕ) → touches (pc p) ≡ some i → touches (pc r) ≡ some j → i % cap ≡ j % cap → p ≡ r
  exclusive p r i j tp tr same = ground (
    arith,
    holder (pc p) i (inv.local p) tp,
    holder (pc r) j (inv.local r) tr,
    same_ticket cap i j,
    inv.one_producer p r i,
    inv.one_consumer p r i,
  )

-- No data race: in every state that some threads reach in fewer than 2 ^ 62 steps, two threads that
-- may touch the object of one slot are the same thread.
pub exclusive_slots :
    {A : Type 0} {cap n : ℕ} {s : System A}
    → 0 < cap
    → n < 2 ^ 62
    → Reach cap n s
    → (p r i j : ℕ) → touches (s.pc p) ≡ some i
    → touches (s.pc r) ≡ some j
    → i % cap ≡ j % cap
    → p ≡ r
exclusive_slots pos small r = exclusive (Reach-Inv pos small r)

-- First in, first out: in every state that some threads reach in fewer than 2 ^ 62 steps, the object
-- that the pop of ticket `i` is about to return is there, and is the one that the emplace of ticket
-- `i` was called with; that ticket was handed out before.
pub popped-eq-logged :
    {A : Type 0} {cap n : ℕ} {s : System A}
    → 0 < cap
    → n < 2 ^ 62
    → Reach cap n s
    → (p i : ℕ) (res : Option A) → s.pc p ≡ pop_destroyed i res
    → (res ≡ s.history i) × (res ≢ none) × (i < s.queue.tail)
popped-eq-logged {cap = cap} {n = n} {s = s} pos small r p i res e =
    let own = subst (Local cap s.queue s.history) e (inv.local p) in
    ground (arith, own, inv.order, inv.logged i)
  where
    inv : Inv cap n s.queue s.history s.pc
    inv = Reach-Inv pos small r

module _ {A : Type 0} (cap : ℕ) (q : Mpmc A) (l : ℕ → Option A) where
  -- What a step from `d` may do to the history and to the tail.
  abbrev Stable : ℕ → Mpmc A × Pc A → Type 0
  Stable i (q', c) = (log l c i ≡ l i) × (q.tail ≤ q'.tail) × (q'.tail ≤ q.tail + 1)

  step-Stable :
      (spurious : Bool) (d : Pc A) (i : ℕ)
      → i < q.tail
      → q.tail < 2 ^ 62
      → Stable i (step cap spurious q d)
  unfolding step
  step-Stable spurious idle i h b = ground arith
  step-Stable spurious (emplace_seen Mode.attempt obj j found) i h b = ground arith
  step-Stable spurious (emplace_seen Mode.wait obj j found) i h b = ground arith
  step-Stable spurious (pop_seen Mode.attempt j found) i h b = ground arith
  step-Stable spurious (pop_seen Mode.wait j found) i h b = ground arith
  step-Stable spurious d i h b = ground arith

-- The history is written once: a step of any thread leaves the entries of the tickets that were
-- handed out as they are, and tickets are handed out one at a time.
pub history_stable :
    {A : Type 0} {cap n : ℕ} {s t : System A}
    → 0 < cap
    → n < 2 ^ 62
    → Reach cap n s
    → Step cap s t
    → (i : ℕ) → i < s.queue.tail
    → (t.history i ≡ s.history i)
      × (s.queue.tail ≤ t.queue.tail)
      × (t.queue.tail ≤ s.queue.tail + 1)
history_stable pos small r (call_emplace p m obj rest) i h = (refl, omega arith, omega arith)
history_stable pos small r (call_pop p m rest) i h = (refl, omega arith, omega arith)
history_stable {cap = cap} {s = s} pos small r (access p spurious) i h =
    step-Stable cap s.queue s.history spurious (s.pc p) i h
      (omega (arith, (Reach-Inv pos small r).few))
