-- ===== src/Queue/Spsc/Tests.antt =====
-- A run of `spsc_queue` with two slots: while 8 is put in, 7 is taken out.
use flux_foundry.Prelude.{ℕ, ◌+◌, ◌%◌, ◌≡◌, ◌≢◌, ◌≤◌, Option, none, some, refl, arith}
use flux_foundry.Queue.Spsc.{Mode, Producer, Consumer, emplace_step, pop_step}
use flux_foundry.Queue.Spsc.System.{
  System, start, emplace_access, pop_access, call_emplace, call_pop, emplaces, pops, Reach, initial,
  next, published, released,
}
use flux_foundry.Queue.Spsc.Safety.{spsc_exclusive, spsc_fifo}

abbrev asked : System ℕ
asked = record start { producer = Producer.tests Mode.attempt 7 }

abbrev filled : System ℕ
filled = emplace_access 2 (emplace_access 2 (emplace_access 2 (emplace_access 2 asked)))

abbrev constructing : System ℕ
constructing = emplace_access 2 (record filled { producer = Producer.tests Mode.attempt 8 })

abbrev releasing : System ℕ
releasing =
    pop_access 2
      (pop_access 2 (pop_access 2 (record constructing { consumer = Consumer.tests Mode.attempt })))

filled-Reach : Reach 2 5 filled
filled-Reach =
    next
      (next (next (next (next initial (call_emplace Mode.attempt 7 refl)) emplaces) emplaces)
        emplaces)
      emplaces

releasing-Reach : Reach 2 11 releasing
unfolding emplace_step
releasing-Reach =
    next
      (next
        (next
          (next (next (next filled-Reach (call_emplace Mode.attempt 8 refl)) emplaces)
            (call_pop Mode.attempt refl))
          pops)
        pops)
      pops

spsc_exclusive_example : releasing.queue.tail % 2 ≢ releasing.queue.head % 2
unfolding emplace_step pop_step
spsc_exclusive_example =
    spsc_exclusive {cap = 2} {n = 11} {s = releasing} (omega arith) (omega arith) releasing-Reach
      refl refl

spsc_fifo_example :
    (some 7 ≡ releasing.sent releasing.queue.head)
    × (◌≢◌ {A = Option ℕ} (some 7) none)
    × (published releasing ≤ released releasing + 2)
unfolding emplace_step pop_step
spsc_fifo_example =
    spsc_fifo {cap = 2} {n = 11} {s = releasing} {res = some 7} (omega arith) (omega arith)
      releasing-Reach refl
