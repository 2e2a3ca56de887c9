-- ===== src/Queue/Spsc/Safety.antt =====
-- What holds in every state of one `spsc_queue` with a producer and a consumer.
use native.Mathlib.Numerals.{add-one}
use flux_foundry.Prelude.{
  ℕ, suc, ◌+◌, ◌%◌, ◌^◌, ◌≤◌, ◌<◌, ◌≡◌, ◌≢◌, refl, true, Option, none, cell-ne, arith,
}
use flux_foundry.Queue.Spsc.{releases}
use flux_foundry.Queue.Spsc.System.{
  System, Step, Reach, initial, next, call_emplace, call_pop, emplaces, pops, Inv, start-Inv,
  writes, reads, published, released,
}
use flux_foundry.Queue.Spsc.Produces.{emplace-Inv, call_emplace-Inv}
use flux_foundry.Queue.Spsc.Consumes.{pop-Inv, call_pop-Inv}

Step-Inv :
    {A : Type 0} {cap n : ℕ} {s t : System A}
    → Inv cap n s
    → 0 < cap
    → n < 2 ^ 62
    → Step cap s t
    → Inv cap (n + 1) t
Step-Inv inv pos small (call_emplace m obj {done} e) = call_emplace-Inv inv pos small m obj done e
Step-Inv inv pos small (call_pop m {res} e) = call_pop-Inv inv pos small m res e
Step-Inv {s = s} inv pos small emplaces = emplace-Inv inv pos small s.producer refl
Step-Inv {s = s} inv pos small pops = pop-Inv inv pos small s.consumer refl

Reach-Inv :
    {A : Type 0} {cap n : ℕ} {s : System A} → 0 < cap → n < 2 ^ 62 → Reach cap n s → Inv cap n s
Reach-Inv {cap = cap} pos small initial = start-Inv cap
Reach-Inv {n = suc n} pos small (next r st) =
    rw (add-one n) at (Step-Inv (Reach-Inv pos (omega arith) r) pos (omega arith) st)

-- No data race: in every state reached in fewer than 2 ^ 62 steps, while the producer constructs or
-- publishes an object and the consumer moves, destroys or releases one, their slots differ.
pub spsc_exclusive :
    {A : Type 0} {cap n : ℕ} {s : System A}
    → 0 < cap
    → n < 2 ^ 62
    → Reach cap n s
    → writes s.producer ≡ true
    → reads s.consumer ≡ true
    → s.queue.tail % cap ≢ s.queue.head % cap
spsc_exclusive {cap = cap} {s = s} pos small r w d same =
    let inv = Reach-Inv pos small r in
    ground (arith, same, inv.writing w, inv.reading d, cell-ne cap s.queue.head s.queue.tail)

-- First in, first out: in every state reached in fewer than 2 ^ 62 steps, the object that the consumer
-- is about to release the slot of, the one of ticket `_h`, is there and is the one that was published
-- under that ticket; and the tickets in the queue are at most as many as its slots.
pub spsc_fifo :
    {A : Type 0} {cap n : ℕ} {s : System A} {res : Option A}
    → 0 < cap
    → n < 2 ^ 62
    → Reach cap n s
    → s.consumer ≡ releases res
    → (res ≡ s.sent s.queue.head) × (res ≢ none) × (published s ≤ released s + cap)
spsc_fifo {s = s} pos small r e =
    let inv = Reach-Inv pos small r in
    ground (arith, e, inv.taken, inv.reading, inv.sent_some s.queue.head, inv.room)
