-- ===== src/Queue/Mpsc/Tests.antt =====
-- A run of `mpsc_queue` with two slots: producer 3 sends 7, which is taken out while producer 5 is at
-- work in the other slot.
use flux_foundry.Prelude.{ℕ, ◌≡◌, ◌≢◌, false, Option, none, some, refl, arith}
use flux_foundry.Queue.Mpsc.{attempt, wait, loads, probes}
use flux_foundry.Queue.Mpsc.System.{
  System, start, emplace_access, pop_access, call_emplace, emplaces, call_pop, pops, Reach, initial,
  next,
}
use flux_foundry.Queue.Mpsc.Safety.{producing, mpsc_exclusive, mpsc_fifo}
use flux_foundry.Prelude.{update}

abbrev calls : ℕ → ℕ → System ℕ → System ℕ
calls p obj s = record s { producers = update s.producers p (loads attempt obj) }

abbrev goes : ℕ → System ℕ → System ℕ
goes p s = emplace_access 2 p false (s.producers p) s

abbrev sent_7 : System ℕ
sent_7 = goes 3 (goes 3 (goes 3 (goes 3 (goes 3 (calls 3 7 start)))))

abbrev constructing : System ℕ
constructing = goes 5 (goes 5 (goes 5 (calls 5 8 sent_7)))

abbrev takes : System ℕ → System ℕ
takes s = pop_access 2 s.consumer s

abbrev taken_7 : System ℕ
taken_7 = takes (takes (takes (takes (takes (record constructing { consumer = probes wait })))))

constructing-reached : Reach 2 10 constructing
constructing-reached =
    next
      (next
        (next
          (next
            (next
              (next
                (next
                  (next (next (next initial (call_emplace 3 attempt 7 refl)) (emplaces 3 false))
                    (emplaces 3 false))
                  (emplaces 3 false))
                (emplaces 3 false))
              (emplaces 3 false))
            (call_emplace 5 attempt 8 refl))
          (emplaces 5 false))
        (emplaces 5 false))
      (emplaces 5 false)

taken-reached : Reach 2 16 taken_7
taken-reached =
    next
      (next (next (next (next (next constructing-reached (call_pop wait refl)) pops) pops) pops)
        pops)
      pops

mpsc_exclusive_example : producing 5 ≡ producing 5
mpsc_exclusive_example =
    mpsc_exclusive 2 10 1 constructing (producing 5) (producing 5) (omega arith) (omega arith)
      constructing-reached refl refl

mpsc_fifo_example : (taken_7.received 0 ≡ some 7) × (◌≢◌ {A = Option ℕ} (some 7) none)
mpsc_fifo_example = mpsc_fifo 2 16 0 taken_7 (omega arith) (omega arith) taken-reached (omega arith)
