-- ===== src/Hazard/Sweep.antt =====
-- `retire` and the two sweeps of memory/hazard_ptr.h, by one thread between steps of the others: the
-- answers of `is_hazard` are a parameter that does not change on the way.
pub mod Laws
pub mod Conserves
use flux_foundry.Prelude.{
  ℕ, zero, suc, ◌+◌, ◌-◌, ◌%◌, Bool, true, false, List, [], ◌∷◌, ◌==◌, ltb, if◌then◌else◌, update,
}

-- A `retire_list`: its records by their objects.
pub record Batch : Type 0 where
  pub records : ℕ → ℕ
  pub count : ℕ

-- The loop of a sweep; `freed` counts how often an object is given to its deleter.
pub record Sweep : Type 0 where
  pub records : ℕ → ℕ
  pub i : ℕ
  pub count : ℕ
  pub freed : ℕ → ℕ

-- The swap with the last record.
abbrev pub swap : (ℕ → ℕ) → ℕ → ℕ → ℕ → ℕ
swap f i j = update (update f i (f j)) j (f i)

abbrev pub turn : (ℕ → Bool) → Sweep → Sweep
turn is_hazard s = if is_hazard (s.records s.i) then record s { i = s.i + 1 } else record s {
  records = swap s.records s.i (s.count - 1);
  count = s.count - 1;
  freed = update s.freed (s.records s.i) (s.freed (s.records s.i) + 1);
}

unfoldable pub sweep_loop : (ℕ → Bool) → (fuel : ℕ) → Sweep → Sweep
sweep_loop is_hazard zero s = s
sweep_loop is_hazard (suc fuel) s =
    let rest = sweep_loop is_hazard fuel (turn is_hazard s) in if ltb s.i s.count then rest else s

-- `hp_owner::sweep_and_reclaim`; every turn passes a record or drops one.
abbrev pub sweep : (ℕ → Bool) → Batch → (ℕ → ℕ) → Sweep
sweep is_hazard b freed =
    sweep_loop is_hazard b.count
      (record { records = b.records; i = 0; count = b.count; freed = freed })

abbrev pub swept : Sweep → Batch
swept s = record { records = s.records; count = s.count }

-- One thread's list, the lists that threads have left behind, and the thread's `retire_count`.
pub record Retired : Type 0 where
  pub own : Batch
  pub orphans : List Batch
  pub retire_count : ℕ
  pub freed : ℕ → ℕ

-- The loop of `sweep_and_reclaim_impl` over the orphans, which drops the empty lists.
unfoldable pub sweep_orphans : (ℕ → Bool) → List Batch → (ℕ → ℕ) → List Batch × (ℕ → ℕ)
sweep_orphans is_hazard [] freed = ([], freed)
sweep_orphans is_hazard (b ∷ bs) freed =
    let s = sweep is_hazard b freed in
    let (rest, freed') = sweep_orphans is_hazard bs s.freed in
    (if s.count == 0 then rest else swept s ∷ rest, freed')

abbrev pub sweep_own : (ℕ → Bool) → Retired → Retired
sweep_own is_hazard m =
    let s = sweep is_hazard m.own m.freed in record m { own = swept s; freed = s.freed }

abbrev pub sweep_and_reclaim_impl : (ℕ → Bool) → Retired → Retired
sweep_and_reclaim_impl is_hazard m =
    let (orphans, freed) = sweep_orphans is_hazard m.orphans m.freed in
    record m { orphans = orphans; freed = freed }

-- The delete or the `emplace_back` at the end of `retire`.
abbrev pub retire_one : (ℕ → Bool) → ℕ → Retired → Retired
retire_one is_hazard p m =
    if is_hazard p
    then record m {
      own = record { records = update m.own.records m.own.count p; count = m.own.count + 1 };
    }
    else record m { freed = update m.freed p (m.freed p + 1) }

-- The sweeps that every 32nd call of `retire` begins with, for a batch of 64: of the thread's own
-- list, and when that is empty of the orphans.
abbrev pub sweep_when_due : (ℕ → Bool) → Retired → Retired
sweep_when_due is_hazard m =
    if m.retire_count % 32 == 0
    then (let s = sweep_own is_hazard m in
        if s.own.count == 0 then sweep_and_reclaim_impl is_hazard s else s)
    else m

unfoldable pub retire : (ℕ → Bool) → ℕ → Retired → Retired
retire is_hazard p m =
    retire_one is_hazard p
      (sweep_when_due is_hazard (record m { retire_count = m.retire_count + 1 }))
