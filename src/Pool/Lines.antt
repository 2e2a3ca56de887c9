-- ===== src/Pool/Lines.antt =====
-- Which line a block belongs to, and how large it is.
use flux_foundry.Prelude.{ℕ, zero, suc, ◌+◌, ◌*◌, ◌<◌, ◌≤◌, ◌≡◌, some, arith}
use flux_foundry.Pool.{match_line, block_size, calc_line, line_width}

abbrev pub InLine : ℕ → ℕ → ℕ → Type 0
InLine buff i p = (buff + i * line_width ≤ p) × (p < buff + (i + 1) * line_width)

pub calc_line_lem : (buff i p : ℕ) → i < 4 → InLine buff i p → calc_line buff p ≡ some i
unfolding calc_line
calc_line_lem buff i p h l = ground arith

pub match_line_fits : (n i : ℕ) → match_line n ≤ i → i < 4 → n ≤ block_size i
unfolding match_line
match_line_fits n zero h l = ground arith
match_line_fits n (suc zero) h l = ground arith
match_line_fits n (suc (suc zero)) h l = ground arith
match_line_fits n (suc (suc (suc zero))) h l = ground arith
match_line_fits n (suc (suc (suc (suc i)))) h l = ground arith
