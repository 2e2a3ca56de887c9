-- ===== src/Prelude/Words.antt =====
-- `size_t` (and `uint64_t`) arithmetic: 64 bits, with its wrap-around.
use Prim.Native.Nat.{ℕ, ◌+◌, ◌-◌, ◌*◌, ◌%◌, ◌^◌}
use mathlib.Core.Bool.{Bool}
use flux_foundry.Prelude.Tests.{leb}

-- A value of more than 64 bits is cut to its low 64.
abbrev pub w64 : ℕ → ℕ
w64 n = n % 2 ^ 64

abbrev pub add64 : ℕ → ℕ → ℕ
add64 a b = w64 (a + b)

abbrev pub sub64 : ℕ → ℕ → ℕ
sub64 a b = w64 (a + 2 ^ 64 - b)

abbrev pub shl64 : ℕ → ℕ → ℕ
shl64 a k = w64 (a * 2 ^ k)

-- `(ptrdiff_t) a < 0`
abbrev pub is_negative : ℕ → Bool
is_negative a = leb (2 ^ 63) a
