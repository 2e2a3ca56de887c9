-- ===== src/Queue/Mpmc/Tests.antt =====
-- Runs of `mpmc_queue` with two slots: thread 0 puts 7 in, then thread 1 takes it out.
use flux_foundry.Prelude.{
  ℕ, ◌<◌, ◌≡◌, ◌≢◌, refl, true, false, Option, none, some, [], ◌∷◌, update, arith,
}
use flux_foundry.Queue.Mpmc.{Mode, emplace, pop, emplaced, popped, init, step, try_emplace, try_pop}
use flux_foundry.Queue.Mpmc.System.{
  System, call_emplace, call_pop, access, Reach, initial, next, start, advance,
}
use flux_foundry.Queue.Mpmc.Safety.{exclusive_slots, popped-eq-logged}
use flux_foundry.Queue.Mpmc.Alone.{Holds, try_emplace_refines, try_pop_refines}

abbrev after_access : ℕ → System ℕ → System ℕ
after_access p s = advance s p (step 2 false s.queue (s.pc p))

abbrev called : System ℕ
called = record start { pc = update start.pc 0 (emplace Mode.attempt 7) }

abbrev claimed : System ℕ
claimed = after_access 0 (after_access 0 (after_access 0 called))

abbrev filled : System ℕ
filled = after_access 0 (after_access 0 claimed)

abbrev asked : System ℕ
asked = record filled { pc = update filled.pc 1 (pop Mode.attempt) }

abbrev destroyed : System ℕ
destroyed = after_access 1 (after_access 1 (after_access 1 (after_access 1 (after_access 1 asked))))

claimed-Reach : Reach 2 4 claimed
claimed-Reach =
    next
      (next (next (next initial (call_emplace 0 Mode.attempt 7 tt)) (access 0 false))
        (access 0 false))
      (access 0 false)

filled-Reach : Reach 2 6 filled
filled-Reach = next (next claimed-Reach (access 0 false)) (access 0 false)

destroyed-Reach : Reach 2 12 destroyed
unfolding step
destroyed-Reach =
    next
      (next
        (next
          (next (next (next filled-Reach (call_pop 1 Mode.attempt tt)) (access 1 false))
            (access 1 false))
          (access 1 false))
        (access 1 false))
      (access 1 false)

exclusive_slots_example : ◌≡◌ {A = ℕ} 0 0
unfolding step
exclusive_slots_example =
    exclusive_slots {cap = 2} {n = 4} {s = claimed} (omega arith) (omega arith) claimed-Reach 0 0 0
      0 refl refl refl

popped-eq-logged_example :
    (some 7 ≡ destroyed.history 0) × (◌≢◌ {A = Option ℕ} (some 7) none) × (0 < destroyed.queue.tail)
unfolding step
popped-eq-logged_example =
    popped-eq-logged {cap = 2} {n = 12} {s = destroyed} (omega arith) (omega arith) destroyed-Reach
      1 0 (some 7) refl

init-Holds_test : Holds {A = ℕ} 2 init []
init-Holds_test = record {
  counted = refl;
  room = omega arith;
  full = λ i h k. absurd (omega arith);
  items = λ i h k. absurd (omega arith);
  free = λ i h k. ground arith;
}

try_emplace_refines_example :
    ((try_emplace {A = ℕ} 2 init 7).1 ≡ emplaced true)
    × Holds 2 (try_emplace {A = ℕ} 2 init 7).0 (7 ∷ [])
try_emplace_refines_example =
    try_emplace_refines {cap = 2} {q = init} {xs = []} 7 (omega arith) (omega arith) init-Holds_test

try_pop_refines_example :
    ((try_pop 2 (try_emplace {A = ℕ} 2 init 7).0).1 ≡ popped (some 7))
    × Holds 2 (try_pop 2 (try_emplace {A = ℕ} 2 init 7).0).0 []
unfolding try_emplace
try_pop_refines_example =
    try_pop_refines {cap = 2} {q = (try_emplace {A = ℕ} 2 init 7).0} (7 ∷ []) (omega arith)
      (omega arith) try_emplace_refines_example.1
