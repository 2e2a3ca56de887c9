-- ===== src/StaticStack/Init.antt =====
-- The constructor of `static_stack`, and the bit layout of its tags for each capacity.
use native.Mathlib.Nat.{mod-eq_of_lt}
use native.Mathlib.Numerals.{add-one}
use flux_foundry.Prelude.{
  ℕ, zero, suc, ◌+◌, ◌*◌, ◌^◌, ◌%◌, ◌<◌, ◌≡◌, refl, Bool, true, ◌&&◌, List, [], ◌∷◌, length, arith,
  ◌==◌, ltb,
}
use flux_foundry.StaticStack.{off, range, seq_range, make_seq, get_offset, init}
use flux_foundry.StaticStack.Rep.{Sized, Chain, Apart, Without}
use flux_foundry.StaticStack.Laws.{Holds}

-- The indices from `i` on, `n` of them.
abbrev indices : ℕ → ℕ → List ℕ
indices i zero = []
indices i (suc n) = i ∷ indices (suc i) n

length-indices : (i n : ℕ) → length (indices i n) ≡ n
length-indices i zero = refl
length-indices i (suc n) = omega (arith, length-indices (suc i) n)

Without-indices : (o i n : ℕ) → o < i → Without o (indices i n)
Without-indices o i zero h = tt
Without-indices o i (suc n) h = (omega arith, Without-indices o (suc i) n (omega arith))

Apart-indices : (i n : ℕ) → Apart (indices i n) []
Apart-indices i zero = tt
Apart-indices i (suc n) = (Without-indices i (suc i) n (omega arith), tt, Apart-indices (suc i) n)

Chain-indices :
    (A : Type 0) (capacity : ℕ)
    → Sized capacity
    → (i n : ℕ) → i + n ≡ capacity
    → Chain {A = A} capacity (init capacity).nodes i (indices i n)
unfolding init get_offset
Chain-indices A capacity sized i zero e = omega arith
Chain-indices A capacity sized i (suc n) e = (
  mod-eq_of_lt (omega (arith, sized.fits)),
  omega arith,
  rw (add-one i) (Chain-indices A capacity sized (suc i) n (omega arith)),
)

-- A new stack holds nothing, and all its nodes are free.
pub init-Holds :
    {A : Type 0} (capacity : ℕ) → Sized capacity → Holds {A = A} capacity (init capacity) []
unfolding init make_seq
init-Holds {A} capacity sized = (
  [],
  indices 0 capacity,
  record {
    top = refl;
    rest =
        rw (let z : 0 * range capacity % 2 ^ 64 + 0 ≡ 0 = omega arith in z)
          (Chain-indices A capacity sized 0 capacity (omega arith));
    objects = tt;
    apart = tt;
    spare_apart = Apart-indices 0 capacity;
    counted = omega (arith, length-indices 0 capacity);
  },
)

all_below : ℕ → (ℕ → Bool) → Bool
all_below zero p = true
all_below (suc n) p = p n && all_below n p

all_below_sound : (n : ℕ) (p : ℕ → Bool) (k : ℕ) → all_below n p ≡ true → k < n → p k ≡ true
unfolding all_below
all_below_sound zero p k h lt = absurd (omega arith)
all_below_sound (suc n) p k h lt = ground (arith, all_below_sound n p k)

layout_fits : ℕ → Bool
layout_fits k =
    let capacity = 2 ^ k in
    ltb capacity (range capacity) && (range capacity * seq_range capacity == 2 ^ 64)

layout_table : all_below 32 layout_fits ≡ true
unfolding all_below layout_fits off
layout_table = refl

-- The layout of a tag is sound for every capacity that the class accepts, a power of two below 2 ^ 32:
-- `off()` bits hold every index and the empty tag, and the sequence number has the other bits.
pub power_of_two-Sized : (k : ℕ) → k < 32 → Sized (2 ^ k)
unfolding layout_fits
power_of_two-Sized k h =
    let ok = all_below_sound 32 layout_fits k layout_table h in
    record { fits = ground arith; splits = ground arith }
