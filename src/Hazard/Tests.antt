-- ===== src/Hazard/Tests.antt =====
-- A reader that protects an object, which is retired under it, and a sweep of a short list.
use flux_foundry.Prelude.{
  ℕ, ◌+◌, ◌≡◌, ◌≢◌, refl, Bool, false, [], ◌∷◌, ◌==◌, if◌then◌else◌, update, ◌⊎◌, arith, zero, suc,
}
use flux_foundry.Hazard.{
  reads, holds, scanned, deleted, max_slot, view, scan_step, scans, Hazards, start, drain,
  protect_step, call_protect, protects, stores, retires, drains, Reach, initial, next,
}
use flux_foundry.Hazard.Safety.{protected_not_deleted}
use flux_foundry.Hazard.Sweep.{Batch, Retired, retire}
use flux_foundry.Hazard.Sweep.Conserves.{waiting, retire-Conserves}

-- Object 5 in target 0, protected by the reader with slot 1.
abbrev protects_1 : Hazards → Hazards
protects_1 s = protect_step 1 (s.readers 1) s

abbrev stored_5 : Hazards
stored_5 = record start { targets = update start.targets 0 5 }

abbrev called : Hazards
called = record stored_5 { readers = update stored_5.readers 1 (reads 0) }

-- The load of the target, the store to the slot, which reaches the memory, and the second load.
abbrev stored_1 : Hazards
stored_1 = protects_1 (protects_1 called)

abbrev held_5 : Hazards
held_5 = protects_1 (drain 1 (stored_1.buffers 1) stored_1)

abbrev unlinked_5 : Hazards
unlinked_5 = record held_5 { targets = update held_5.targets 0 0 }

abbrev retired_5 : Hazards
retired_5 = record unlinked_5 { life = update unlinked_5.life 5 (scanned 0) }

Reach-stored : Reach 4 stored_1
Reach-stored =
    next
      (next (next (next initial (stores 0 5 refl)) (call_protect 1 0 (ground arith) tt))
        (protects 1 (ground arith)))
      (protects 1 (ground arith))

Reach-retired : Reach 8 retired_5
Reach-retired =
    next (next (next (next Reach-stored (drains 1)) (protects 1 (ground arith))) (stores 0 0 refl))
      (retires 5 refl (λ a. ground arith))

protected_not_deleted_example : (retired_5.slots 1 ≡ 5) × (retired_5.life 5 ≢ deleted)
protected_not_deleted_example =
    protected_not_deleted 8 1 5 retired_5 Reach-retired (ground arith) refl refl

-- The records 5, 6, 7, 6, of which 6 is a hazard.
abbrev four : Batch
four = record { records = update (update (update (λ i. 6) 0 5) 2 7) 3 6; count = 4 }

abbrev is_six : ℕ → Bool
is_six p = p == 6

abbrev due : Retired
due = record { own = four; orphans = four ∷ []; retire_count = 31; freed = λ p. 0 }

retire-Conserves_example :
    (waiting 6 (retire is_six 8 due) + (retire is_six 8 due).freed 6
      ≡ waiting 6 due + due.freed 6 + (if 8 == 6 then 1 else 0))
    × (((retire is_six 8 due).freed 6 ≡ due.freed 6) ⊎ (is_six 6 ≡ false))
retire-Conserves_example = retire-Conserves is_six 6 8 due

-- The same without `drains`: the second load is done while the store to the slot still waits.
abbrev early_5 : Hazards
early_5 = protects_1 stored_1

abbrev early_retired : Hazards
early_retired = record early_5 {
  targets = update early_5.targets 0 0;
  life = update early_5.life 5 (scanned 0);
}

Reach-early : Reach 7 early_retired
Reach-early =
    next (next (next Reach-stored (protects 1 (ground arith))) (stores 0 0 refl))
      (retires 5 refl (λ a. ground arith))

-- A state in which reader 1 holds the object 5, which is deleted.
record Freed : Type 0 where
  state : Hazards
  steps : ℕ
  reached : Reach steps state
  held : state.readers 1 ≡ holds 5 false
  freed : state.life 5 ≡ deleted

scan_to_end :
    (m i n : ℕ) (s : Hazards)
    → i + m ≡ max_slot
    → ((k : ℕ) → s.slots k ≡ 0)
    → s.readers 1 ≡ holds 5 false
    → s.life 5 ≡ scanned i
    → Reach n s
    → Freed
unfolding scan_step
scan_to_end zero i n s e z h l r = record {
  state = record s { life = update s.life 5 (scan_step (view (λ k. false) s) 5 (s.life 5)) };
  steps = suc n;
  reached = next r (scans (λ k. false) 5);
  held = h;
  freed = ground (arith, l);
}
scan_to_end (suc m) i n s e z h l r =
    scan_to_end m (i + 1) (suc n)
      (record s { life = update s.life 5 (scan_step (view (λ k. false) s) 5 (s.life 5)) })
      (omega arith) z h (ground (arith, l, z i)) (next r (scans (λ k. false) 5))

-- The scan passes the slot before the store reaches it: reader 1 holds the object 5, which is deleted.
early_freed : Freed
early_freed = scan_to_end 128 0 7 early_retired refl (λ k. refl) refl refl Reach-early
