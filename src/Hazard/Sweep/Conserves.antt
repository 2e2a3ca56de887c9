-- ===== src/Hazard/Sweep/Conserves.antt =====
-- `retire` loses no object and deletes none twice.
use flux_foundry.Prelude.{
  ℕ, ◌+◌, ◌%◌, ◌≡◌, refl, inl, inr, Bool, false, List, [], ◌∷◌, ◌==◌, if◌then◌else◌, update,
  tally-update_out, tally-suc, tally_none, Bool-cases, ◌⊎◌, arith,
}
use flux_foundry.Hazard.Sweep.{
  Batch, sweep, swept, Retired, sweep_orphans, sweep_own, sweep_and_reclaim_impl, retire_one,
  sweep_when_due, retire,
}
use flux_foundry.Hazard.Sweep.Laws.{is, occurrences, sweep_lem}

abbrev pub all_occurrences : ℕ → List Batch → ℕ
all_occurrences p [] = 0
all_occurrences p (b ∷ bs) = occurrences p b + all_occurrences p bs

-- The records of an object that wait in some list.
abbrev pub waiting : ℕ → Retired → ℕ
waiting p m = occurrences p m.own + all_occurrences p m.orphans

-- What is kept and freed of an object stays the same in all, and a hazard is not freed.
abbrev Conserves : (ℕ → Bool) → ℕ → (before after freed_before freed_after : ℕ) → Type 0
Conserves is_hazard p k k' f f' = (k' + f' ≡ k + f) × ((f' ≡ f) ⊎ (is_hazard p ≡ false))

Conserves-both :
    (is_hazard : ℕ → Bool) (p k k' k'' f f' f'' : ℕ)
    → Conserves is_hazard p k k' f f'
    → Conserves is_hazard p k' k'' f' f''
    → Conserves is_hazard p k k'' f f''
Conserves-both is_hazard p k k' k'' f f' f'' a b = ground (arith, a, b)

sweep-Conserves :
    (is_hazard : ℕ → Bool) (p : ℕ) (b : Batch) (freed : ℕ → ℕ)
    → Conserves is_hazard p
        (occurrences p b)
        (occurrences p (swept (sweep is_hazard b freed)))
        (freed p)
        ((sweep is_hazard b freed).freed p)
sweep-Conserves is_hazard p b freed = elim (Bool-cases (is_hazard p)) [
  | inl y ↦ ground (arith, y, sweep_lem is_hazard p b freed)
  | inr n ↦ ground (arith, n, sweep_lem is_hazard p b freed)
]

-- A list that is dropped is empty.
dropped_empty :
    (p : ℕ) (b : Batch) (bs : List Batch)
    → all_occurrences p (if b.count == 0 then bs else b ∷ bs)
      ≡ occurrences p b + all_occurrences p bs
dropped_empty p b bs = elim (Bool-cases (b.count == 0)) [
  | inl y ↦ ground (arith, y, tally_none (is p) b.records)
  | inr n ↦ ground (arith, n)
]

sweep_orphans-Conserves :
    (is_hazard : ℕ → Bool) (p : ℕ) (bs : List Batch) (freed : ℕ → ℕ)
    → Conserves is_hazard p
        (all_occurrences p bs)
        (all_occurrences p (sweep_orphans is_hazard bs freed).0)
        (freed p)
        ((sweep_orphans is_hazard bs freed).1 p)
unfolding sweep_orphans
sweep_orphans-Conserves is_hazard p [] freed = ground arith
sweep_orphans-Conserves is_hazard p (b ∷ bs) freed = ground (
  arith,
  sweep-Conserves is_hazard p b freed,
  sweep_orphans-Conserves is_hazard p bs (sweep is_hazard b freed).freed,
  dropped_empty p (swept (sweep is_hazard b freed))
      (sweep_orphans is_hazard bs (sweep is_hazard b freed).freed).0,
)

reclaim-Conserves :
    (is_hazard : ℕ → Bool) (p : ℕ) (m : Retired)
    → Conserves is_hazard p
        (waiting p m)
        (waiting p (sweep_and_reclaim_impl is_hazard m))
        (m.freed p)
        ((sweep_and_reclaim_impl is_hazard m).freed p)
reclaim-Conserves is_hazard p m =
    ground (arith, sweep_orphans-Conserves is_hazard p m.orphans m.freed)

sweep_own-Conserves :
    (is_hazard : ℕ → Bool) (p : ℕ) (m : Retired)
    → Conserves is_hazard p
        (waiting p m)
        (waiting p (sweep_own is_hazard m))
        (m.freed p)
        ((sweep_own is_hazard m).freed p)
sweep_own-Conserves is_hazard p m = ground (arith, sweep-Conserves is_hazard p m.own m.freed)

retire_one-Conserves :
    (is_hazard : ℕ → Bool) (p q : ℕ) (m : Retired)
    → Conserves is_hazard p
        (waiting p m + is p q)
        (waiting p (retire_one is_hazard q m))
        (m.freed p)
        ((retire_one is_hazard q m).freed p)
retire_one-Conserves is_hazard p q m = elim (Bool-cases (is_hazard q)) [
  | inl y ↦ ground (
    arith,
    y,
    tally-suc (is p) m.own.count (update m.own.records m.own.count q),
    tally-update_out (is p) m.own.count m.own.records m.own.count q (ground arith),
  )
  | inr n ↦ elim (Bool-cases (q == p)) [
    | inl e ↦ ground (arith, n, e)
    | inr d ↦ ground (arith, n, d)
  ]
]

due-Conserves :
    (is_hazard : ℕ → Bool) (p : ℕ) (m : Retired)
    → Conserves is_hazard p
        (waiting p m)
        (waiting p (sweep_when_due is_hazard m))
        (m.freed p)
        ((sweep_when_due is_hazard m).freed p)
due-Conserves is_hazard p m = elim (Bool-cases (m.retire_count % 32 == 0)) [
  | inl y ↦ elim (Bool-cases ((sweep_own is_hazard m).own.count == 0)) [
    | inl z ↦ rw y (
        rw z (
          Conserves-both is_hazard p (waiting p m) (waiting p (sweep_own is_hazard m))
            (waiting p (sweep_and_reclaim_impl is_hazard (sweep_own is_hazard m))) (m.freed p)
            ((sweep_own is_hazard m).freed p)
            ((sweep_and_reclaim_impl is_hazard (sweep_own is_hazard m)).freed p)
            (sweep_own-Conserves is_hazard p m)
            (reclaim-Conserves is_hazard p (sweep_own is_hazard m))))
    | inr z ↦ rw y (rw z (sweep_own-Conserves is_hazard p m))
  ]
  | inr n ↦ rw n (refl, inl refl)
]

-- After `retire q`, whether or not it sweeps: the records of an object that wait in this thread's or
-- an orphaned list and the calls of its deleter are together as many as before, one more for `q`, and
-- an object that is a hazard was not given to its deleter.
pub retire-Conserves :
    (is_hazard : ℕ → Bool) (p q : ℕ) (m : Retired)
    → (waiting p (retire is_hazard q m) + (retire is_hazard q m).freed p
        ≡ waiting p m + m.freed p + (if q == p then 1 else 0))
      × (((retire is_hazard q m).freed p ≡ m.freed p) ⊎ (is_hazard p ≡ false))
unfolding retire
retire-Conserves is_hazard p q m = ground (
  arith,
  due-Conserves is_hazard p (record m { retire_count = m.retire_count + 1 }),
  retire_one-Conserves is_hazard p q
      (sweep_when_due is_hazard (record m { retire_count = m.retire_count + 1 })),
)
