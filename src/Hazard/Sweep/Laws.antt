-- ===== src/Hazard/Sweep/Laws.antt =====
-- A sweep deletes each object that is no hazard once, and keeps the others.
use native.Mathlib.Numerals.{unary_clauses}
use flux_foundry.Prelude.{
  ℕ, zero, suc, ◌+◌, ◌-◌, ◌≤◌, ◌<◌, ◌≡◌, inl, inr, Bool, false, ◌==◌, ltb, if◌then◌else◌, update,
  tally, tally-update_out, tally_mono, tally-swap, tally_none, tally-suc, Bool-cases, ◌⊎◌, arith,
}
use flux_foundry.Hazard.Sweep.{Batch, Sweep, swap, turn, sweep_loop, sweep, swept}

-- How often an object stands in a list, and how many records are no hazards.
abbrev pub is : ℕ → ℕ → ℕ
is p q = if q == p then 1 else 0

abbrev pub no_hazard : (ℕ → Bool) → ℕ → ℕ
no_hazard is_hazard q = if is_hazard q then 0 else 1

abbrev pub occurrences : ℕ → Batch → ℕ
occurrences p b = tally (is p) b.count b.records

record IsSweeping (is_hazard : ℕ → Bool) (s : Sweep) : Type 0 where
  within : s.i ≤ s.count
  passed : tally (no_hazard is_hazard) s.i s.records ≡ 0

-- What a sweep has of an object: in its records and freed.
abbrev total : ℕ → Sweep → ℕ
total p s = tally (is p) s.count s.records + s.freed p

tally-swap_last :
    (w : ℕ → ℕ) (f : ℕ → ℕ) (i n : ℕ)
    → i < n
    → tally w (n - 1) (swap f i (n - 1)) + w (f i) ≡ tally w n f
tally-swap_last w f i zero h = ground arith
tally-swap_last w f i (suc n) h = simp unary_clauses (tally-swap w f i n h)

turn-total :
    (is_hazard : ℕ → Bool) (p : ℕ) (s : Sweep)
    → s.i < s.count
    → total p (turn is_hazard s) ≡ total p s
turn-total is_hazard p s h = elim (Bool-cases (is_hazard (s.records s.i))) [
  | inl y ↦ ground (arith, y)
  | inr n ↦ ground (arith, n, tally-swap_last (is p) s.records s.i s.count h)
]

turn-IsSweeping :
    (is_hazard : ℕ → Bool) (s : Sweep)
    → s.i < s.count
    → IsSweeping is_hazard s
    → IsSweeping is_hazard (turn is_hazard s)
turn-IsSweeping is_hazard s h inv = elim (Bool-cases (is_hazard (s.records s.i))) [
  | inl y ↦ record {
    within = ground (arith, y);
    passed = ground (arith, y, tally-suc (no_hazard is_hazard) s.i s.records, inv.passed);
  }
  | inr n ↦ record {
    within = ground (arith, n);
    passed = ground (
      arith,
      n,
      inv.passed,
      tally-update_out (no_hazard is_hazard) s.i s.records s.i (s.records (s.count - 1))
          (ground arith),
      tally-update_out (no_hazard is_hazard) s.i (update s.records s.i (s.records (s.count - 1)))
          (s.count - 1) (s.records s.i) (ground arith),
    );
  }
]

turn_fuel :
    (is_hazard : ℕ → Bool) (fuel : ℕ) (s : Sweep)
    → s.i < s.count
    → s.count ≤ s.i + suc fuel
    → (turn is_hazard s).count ≤ (turn is_hazard s).i + fuel
turn_fuel is_hazard fuel s l h = elim (Bool-cases (is_hazard (s.records s.i))) [
  | inl y ↦ ground (arith, y)
  | inr n ↦ ground (arith, n)
]

turn_freed :
    (is_hazard : ℕ → Bool) (p : ℕ) (s : Sweep)
    → ((turn is_hazard s).freed p ≡ s.freed p) ⊎ (is_hazard p ≡ false)
turn_freed is_hazard p s = elim (Bool-cases (is_hazard (s.records s.i))) [
  | inl y ↦ ground (arith, y)
  | inr n ↦ ground (arith, n)
]

-- What a sweep leaves: no object lost, none that is no hazard, and no hazard freed.
abbrev Settles : (ℕ → Bool) → ℕ → Sweep → Sweep → Type 0
Settles is_hazard p s t =
    (total p t ≡ total p s)
    × ((tally (no_hazard is_hazard) t.count t.records ≡ 0)
        × ((t.freed p ≡ s.freed p) ⊎ (is_hazard p ≡ false)))

Settles-after :
    (is_hazard : ℕ → Bool) (p : ℕ) (s u t : Sweep)
    → total p u ≡ total p s
    → (u.freed p ≡ s.freed p) ⊎ (is_hazard p ≡ false)
    → Settles is_hazard p u t
    → Settles is_hazard p s t
Settles-after is_hazard p s u t e f g = ground (arith, e, f, g)

Settles-here :
    (is_hazard : ℕ → Bool) (p : ℕ) (s : Sweep)
    → s.count ≤ s.i
    → IsSweeping is_hazard s
    → Settles is_hazard p s s
Settles-here is_hazard p s h inv = ground (arith, inv.within, inv.passed)

-- Enough fuel: one turn for each record.
loop_lem :
    (is_hazard : ℕ → Bool) (p fuel : ℕ) (s : Sweep)
    → s.count ≤ s.i + fuel
    → IsSweeping is_hazard s
    → Settles is_hazard p s (sweep_loop is_hazard fuel s)
unfolding sweep_loop
loop_lem is_hazard p zero s h inv = Settles-here is_hazard p s (ground arith) inv
loop_lem is_hazard p (suc fuel) s h inv = elim (Bool-cases (ltb s.i s.count)) [
  | inl y ↦ rw y (
      Settles-after is_hazard p s (turn is_hazard s) (sweep_loop is_hazard fuel (turn is_hazard s))
        (turn-total is_hazard p s (ground (arith, y))) (turn_freed is_hazard p s)
        (loop_lem is_hazard p fuel (turn is_hazard s)
          (turn_fuel is_hazard fuel s (ground (arith, y)) h)
          (turn-IsSweeping is_hazard s (ground (arith, y)) inv)))
  | inr n ↦ rw n (Settles-here is_hazard p s (ground (arith, n)) inv)
]

-- An object that is no hazard stands among those that are not.
weight_le :
    (is_hazard : ℕ → Bool) (p : ℕ) → is_hazard p ≡ false → (q : ℕ) → is p q ≤ no_hazard is_hazard q
weight_le is_hazard p h q = elim (Bool-cases (q == p)) [
  | inl y ↦ ground (arith, y, h)
  | inr n ↦ ground (arith, n)
]

-- A sweep gives each record of an object that is no hazard to its deleter, once, and keeps each
-- record of an object that is one.
pub sweep_lem :
    (is_hazard : ℕ → Bool) (p : ℕ) (b : Batch) (freed : ℕ → ℕ)
    → ((sweep is_hazard b freed).freed p ≡ freed p + (if is_hazard p then 0 else occurrences p b))
      × (occurrences p (swept (sweep is_hazard b freed))
          ≡ (if is_hazard p then occurrences p b else 0))
sweep_lem is_hazard p b freed = elim (Bool-cases (is_hazard p)) [
  | inl y ↦ ground (arith, y, settled)
  | inr n ↦ ground (
    arith,
    n,
    settled,
    tally_mono (is p) (no_hazard is_hazard) (sweep is_hazard b freed).count
        (sweep is_hazard b freed).records (weight_le is_hazard p n),
  )
]
  where
    settled :
        Settles is_hazard p
          (record { records = b.records; i = 0; count = b.count; freed = freed })
          (sweep is_hazard b freed)
    settled =
        loop_lem is_hazard p b.count
          (record { records = b.records; i = 0; count = b.count; freed = freed }) (ground arith)
          (record { within = ground arith; passed = tally_none (no_hazard is_hazard) b.records })
