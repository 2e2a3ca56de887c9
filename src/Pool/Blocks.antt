-- ===== src/Pool/Blocks.antt =====
-- The blocks that the constructor of `static_mem_pool` cuts from the buffer.
use native.Mathlib.Nat.{suc-mul}
use flux_foundry.Prelude.{
  ℕ, zero, suc, ◌+◌, ◌*◌, ◌<◌, ◌≤◌, ◌≡◌, ◌≢◌, ◌⊎◌, refl, List, [], ◌∷◌, inl, inr, ◌==◌,
  if◌then◌else◌, Bool-cases, length, ap, arith,
}
use flux_foundry.StaticStack.Laws.{abstract_push}
use flux_foundry.Pool.{block_size, line_width, capacity, Pool, fill, init}

-- How often a pointer stands in a list.
abbrev pub occurrences : ℕ → List ℕ → ℕ
occurrences p [] = 0
occurrences p (x ∷ xs) = (if x == p then 1 else 0) + occurrences p xs

-- `n` blocks of size `d` from `q` on.
abbrev pub blocks : (n d q : ℕ) → List ℕ
blocks zero d q = []
blocks (suc n) d q = q ∷ blocks n d (q + d)

abbrev pub line_blocks : ℕ → ℕ → List ℕ
line_blocks buff i = blocks (capacity i) (block_size i) (buff + i * line_width)

pub block_bounds :
    (n d q p e : ℕ) → 0 < occurrences p (blocks n d q) → q + n * d ≤ e → (q ≤ p) × (p + d ≤ e)
block_bounds zero d q p e h b = ground arith
block_bounds (suc n) d q p e h b = elim (Bool-cases (q == p)) [
  | inl y ↦ ground (arith, y, past)
  | inr m ↦ ground (arith, h, m, past, block_bounds n d (q + d) p e)
]
  where
    past : q + d + n * d ≤ e
    past = omega (arith, suc-mul n d)

pub blocks_apart :
    (n d q p p' : ℕ)
    → 0 < occurrences p (blocks n d q)
    → 0 < occurrences p' (blocks n d q)
    → p ≢ p'
    → (p + d ≤ p') ⊎ (p' + d ≤ p)
blocks_apart zero d q p p' h h' ne = ground arith
blocks_apart (suc n) d q p p' h h' ne = elim (Bool-cases (q == p)) [
  | inl y ↦ elim (Bool-cases (q == p')) [
    | inl y' ↦ ground (arith, y, y')
    | inr m' ↦ ground (arith, y, m', h', block_bounds n d (q + d) p' (q + d + n * d))
  ]
  | inr m ↦ elim (Bool-cases (q == p')) [
    | inl y' ↦ ground (arith, m, y', h, block_bounds n d (q + d) p (q + d + n * d))
    | inr m' ↦ ground (arith, m, m', h, h', blocks_apart n d (q + d) p p')
  ]
]

pub blocks_once : (n d q p : ℕ) → 0 < d → occurrences p (blocks n d q) ≤ 1
blocks_once zero d q p h = ground arith
blocks_once (suc n) d q p h = elim (Bool-cases (q == p)) [
  | inl y ↦
      ground (arith, y, block_bounds n d (q + d) p (q + d + n * d), blocks_once n d (q + d) p h)
  | inr m ↦ ground (arith, m, blocks_once n d (q + d) p h)
]

push_room :
    (line p : ℕ) (xs : List ℕ)
    → length xs < capacity line
    → (abstract_push (capacity line) p xs).0 ≡ p ∷ xs
push_room line p xs h = ground arith

-- What a loop of the constructor puts on a list with room, and where it ends.
record Filled (line n p q : ℕ) (xs : List ℕ) (r : List ℕ × ℕ) : Type 0 where
  pub counts : occurrences q r.0 ≡ occurrences q xs + occurrences q (blocks n (block_size line) p)
  pub grows : length r.0 ≡ length xs + n
  pub ends : r.1 ≡ p + n * block_size line

Filled-more :
    (line n p q : ℕ) (xs : List ℕ) (r : List ℕ × ℕ)
    → Filled line n (p + block_size line) q (p ∷ xs) r
    → Filled line (suc n) p q xs r
Filled-more line n p q xs r f = record {
  counts = ground (arith, f.counts);
  grows = ground (arith, f.grows);
  ends = omega (arith, f.ends, suc-mul n (block_size line));
}

fill_lem :
    (line n p q : ℕ) (xs : List ℕ)
    → length xs + n ≤ capacity line
    → Filled line n p q xs (fill line n p xs)
unfolding fill
fill_lem line zero p q xs h = record {
  counts = ground arith;
  grows = ground arith;
  ends = ground arith;
}
fill_lem line (suc n) p q xs h = rw (push_room line p xs (ground arith)) (
    Filled-more line n p q xs (fill line n (p + block_size line) (p ∷ xs))
      (fill_lem line n (p + block_size line) q (p ∷ xs) (ground arith)))

-- Nothing is lost and nothing doubled: each block of a line is on its list or handed out.
pub record IsSound (buff : ℕ) (s : Pool) (out : ℕ → List ℕ) : Type 0 where
  pub whole :
      (i p : ℕ)
      → i < 4
      → occurrences p (s.free i) + occurrences p (out i) ≡ occurrences p (line_blocks buff i)
  pub room : (i : ℕ) → i < 4 → length (s.free i) + length (out i) ≡ capacity i

-- The blocks of a line fill it.
pub widths : (j : ℕ) → j < 4 → capacity j * block_size j ≡ line_width
widths zero l = refl
widths (suc zero) l = refl
widths (suc (suc zero)) l = refl
widths (suc (suc (suc zero))) l = refl
widths (suc (suc (suc (suc j)))) l = ground arith

-- One line of a new pool.
abbrev IsLine : ℕ → ℕ → ℕ → List ℕ × ℕ → Type 0
IsLine buff i q r =
    (occurrences q r.0 ≡ occurrences q (line_blocks buff i))
    × ((length r.0 ≡ capacity i) × (r.1 ≡ buff + (i + 1) * line_width))

filled-IsLine :
    (buff i q p : ℕ)
    → i < 4
    → p ≡ buff + i * line_width
    → IsLine buff i q (fill i (capacity i) p [])
filled-IsLine buff i q p h e = ground (
  arith,
  f.counts,
  f.grows,
  f.ends,
  e,
  widths i h,
  suc-mul i line_width,
  ap (λ x. occurrences q (blocks (capacity i) (block_size i) x)) e,
)
  where
    f : Filled i (capacity i) p q [] (fill i (capacity i) p [])
    f = fill_lem i (capacity i) p q [] (ground arith)

IsLine-0 : (buff q : ℕ) → IsLine buff 0 q (fill 0 2048 buff [])
IsLine-0 buff q = filled-IsLine buff 0 q buff (ground arith) (ground arith)

IsLine-1 : (buff q : ℕ) → IsLine buff 1 q (fill 1 1024 (fill 0 2048 buff []).1 [])
IsLine-1 buff q =
    filled-IsLine buff 1 q (fill 0 2048 buff []).1 (ground arith) (ground (arith, IsLine-0 buff q))

IsLine-2 : (buff q : ℕ) → IsLine buff 2 q (fill 2 512 (fill 1 1024 (fill 0 2048 buff []).1 []).1 [])
IsLine-2 buff q =
    filled-IsLine buff 2 q (fill 1 1024 (fill 0 2048 buff []).1 []).1 (ground arith)
      (ground (arith, IsLine-1 buff q))

IsLine-3 :
    (buff q : ℕ)
    → IsLine buff 3 q (fill 3 256 (fill 2 512 (fill 1 1024 (fill 0 2048 buff []).1 []).1 []).1 [])
IsLine-3 buff q =
    filled-IsLine buff 3 q (fill 2 512 (fill 1 1024 (fill 0 2048 buff []).1 []).1 []).1
      (ground arith) (ground (arith, IsLine-2 buff q))

first_lists :
    (buff i q : ℕ)
    → i < 4
    → (occurrences q ((init buff).free i) ≡ occurrences q (line_blocks buff i))
      × (length ((init buff).free i) ≡ capacity i)
unfolding init
first_lists buff zero q h = ((IsLine-0 buff q).0, (IsLine-0 buff q).1.0)
first_lists buff (suc zero) q h = ((IsLine-1 buff q).0, (IsLine-1 buff q).1.0)
first_lists buff (suc (suc zero)) q h = ((IsLine-2 buff q).0, (IsLine-2 buff q).1.0)
first_lists buff (suc (suc (suc zero))) q h = ((IsLine-3 buff q).0, (IsLine-3 buff q).1.0)
first_lists buff (suc (suc (suc (suc i)))) q h = ground arith

pub init-IsSound : (buff : ℕ) → IsSound buff (init buff) (λ i. [])
init-IsSound buff = record {
  whole = λ i p h. ground (arith, first_lists buff i p h);
  room = λ i h. ground (arith, first_lists buff i 0 h);
}
