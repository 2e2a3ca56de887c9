-- ===== src/Prelude/Cells.antt =====
-- Arrays and thread tables as functions of the index, with update at one index, and the two
-- coordinates of a ticket in a ring of `cap` cells: its cell `i % cap` and its round `i / cap`.
use Prim.Native.Nat.{ℕ, ◌+◌, ◌-◌, ◌*◌, ◌/◌, ◌%◌, ◌≤◌, ◌<◌}
use mathlib.Core.Path.{◌≡◌, ap}
use mathlib.Core.Logic.{◌≢◌}
use native.Mathlib.Omega.{arith}
use native.Mathlib.Nat.{div-add-mod, mod-eq-sub-mod, div-eq-sub-div}
use flux_foundry.Prelude.Tests.{◌==◌, if◌then◌else◌}

abbrev pub update {ℓ} : {A : Type ℓ} → (ℕ → A) → ℕ → A → ℕ → A
update f i a j = if i == j then a else f j

-- A ticket is determined by its cell and its round.
pub same_ticket : (cap i j : ℕ) → i % cap ≡ j % cap → i / cap ≡ j / cap → i ≡ j
same_ticket cap i j hm hd =
    omega (arith, div-add-mod i cap, div-add-mod j cap, ap (λ (t : ℕ). cap * t) hd)

-- One turn further round the ring: the same cell, the next round.
pub next_round :
    (cap i : ℕ) → 0 < cap → cap ≤ i → ((i - cap) % cap ≡ i % cap) × ((i - cap) / cap + 1 ≡ i / cap)
next_round cap i h le = omega (arith, mod-eq-sub-mod le, div-eq-sub-div h le)

-- Fewer than `cap` tickets apart, the cells differ.
pub cell-ne : (cap i j : ℕ) → i < j → j < i + cap → i % cap ≢ j % cap
cell-ne cap i j lt near e = grind (arith, div-add-mod i cap, div-add-mod j cap)
