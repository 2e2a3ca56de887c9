-- ===== src/Prelude/Tally.antt =====
-- Sums of weights over the first `n` of a family, and how an update changes them.
use Prim.Native.Nat.{ℕ, zero, suc, ◌+◌, ◌≤◌, ◌<◌}
use mathlib.Core.Path.{◌≡◌, refl}
use native.Mathlib.Decide.{dec_lt}
use native.Mathlib.Omega.{arith}
use flux_foundry.Prelude.Cells.{update}

module _ {A : Type 0} (weight : A → ℕ) where
  pub tally : ℕ → (ℕ → A) → ℕ
  tally zero f = 0
  tally (suc n) f = weight (f n) + tally n f

  pub tally_none : (f : ℕ → A) → tally 0 f ≡ 0
  unfolding tally
  tally_none f = refl

  pub tally-suc : (n : ℕ) (f : ℕ → A) → tally (suc n) f ≡ weight (f n) + tally n f
  unfolding tally
  tally-suc n f = refl

  pub tally-update_out :
      (n : ℕ) (f : ℕ → A) (i : ℕ) (a : A) → n ≤ i → tally n (update f i a) ≡ tally n f
  unfolding tally
  tally-update_out zero f i a h = refl
  tally-update_out (suc n) f i a h = ground (arith, tally-update_out n f i a)

  -- The new weight comes in for the old one.
  pub tally-update :
      (n : ℕ) (f : ℕ → A) (i : ℕ) (a : A)
      → i < n
      → tally n (update f i a) + weight (f i) ≡ tally n f + weight a
  unfolding tally
  tally-update zero f i a h = absurd (omega arith)
  tally-update (suc n) f i a h = elim (dec_lt i n) [
    | yes inside ↦ ground (arith, tally-update n f i a inside)
    | no end ↦ ground (arith, tally-update_out n f i a)
  ]

  -- One element is swapped with the last and taken off.
  pub tally-swap :
      (f : ℕ → A) (i n : ℕ)
      → i < suc n
      → tally n (update (update f i (f n)) n (f i)) + weight (f i) ≡ tally (suc n) f
  unfolding tally
  tally-swap f i n h = elim (dec_lt i n) [
    | yes inside ↦ ground (
      arith,
      tally-update_out n (update f i (f n)) n (f i) (ground arith),
      tally-update n f i (f n) inside,
    )
    | no end ↦
        let last : i ≡ n = omega arith in
        ground (
          arith,
          tally-update_out n (update f i (f n)) n (f i) (ground arith),
          tally-update_out n f i (f n) (ground arith),
        )
  ]

  -- A weight counts where it stands.
  pub weight-le-tally : (n : ℕ) (f : ℕ → A) (i : ℕ) → i < n → weight (f i) ≤ tally n f
  unfolding tally
  weight-le-tally zero f i h = absurd (omega arith)
  weight-le-tally (suc n) f i h = elim (dec_lt i n) [
    | yes inside ↦ omega (arith, weight-le-tally n f i inside)
    | no end ↦ let last : i ≡ n = omega arith in ground arith
  ]

  pub tally-zero : (n : ℕ) (f : ℕ → A) → ((i : ℕ) → weight (f i) ≡ 0) → tally n f ≡ 0
  unfolding tally
  tally-zero zero f h = refl
  tally-zero (suc n) f h = omega (arith, h n, tally-zero n f h)

  pub tally-le : (n : ℕ) (f : ℕ → A) → ((a : A) → weight a ≤ 1) → tally n f ≤ n
  unfolding tally
  tally-le zero f h = omega arith
  tally-le (suc n) f h = omega (arith, h (f n), tally-le n f h)

pub tally_mono :
    {A : Type 0} (w v : A → ℕ) (n : ℕ) (f : ℕ → A)
    → ((a : A) → w a ≤ v a)
    → tally w n f ≤ tally v n f
unfolding tally
tally_mono w v zero f h = omega arith
tally_mono w v (suc n) f h = omega (arith, h (f n), tally_mono w v n f h)
