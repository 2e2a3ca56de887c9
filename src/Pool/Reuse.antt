-- ===== src/Pool/Reuse.antt =====
-- What `allocate` gives and `deallocate` takes back.
use native.Mathlib.Nat.{suc-mul}
use flux_foundry.Prelude.{
  ℕ, zero, suc, ◌+◌, ◌-◌, ◌*◌, ◌<◌, ◌≤◌, ◌≡◌, ◌⊎◌, refl, none, some, List, [], ◌∷◌, inl, inr, ◌==◌,
  if◌then◌else◌, Bool-cases, length, update, arith,
}
use flux_foundry.Pool.{
  match_line, block_size, calc_line, line_width, capacity, Pool, init, allocate_from, allocate,
  deallocate,
}
use flux_foundry.Pool.Lines.{calc_line_lem}
use flux_foundry.Pool.Blocks.{
  occurrences, line_blocks, block_bounds, blocks_once, widths, IsSound, init-IsSound,
}

-- The pointer as the caller has it: the lists of the blocks that are handed out, by their lines.
abbrev pub lend : ℕ → ℕ → (ℕ → List ℕ) → ℕ → List ℕ
lend buff p out = elim (calc_line buff p) [ none ↦ out | some i ↦ update out i (p ∷ out i) ]

abbrev pub remove : ℕ → List ℕ → List ℕ
remove p [] = []
remove p (x ∷ xs) = if x == p then xs else x ∷ remove p xs

-- Calls in any order, where only blocks that are handed out are given back.
pub data Reach (buff : ℕ) : Pool → (ℕ → List ℕ) → Type 0 where
  initial : Reach buff (init buff) (λ i. [])
  allocates :
      {s : Pool} {out : ℕ → List ℕ} (n : ℕ)
      → Reach buff s out
      → Reach buff (allocate n s).0 (lend buff (allocate n s).1 out)
  deallocates :
      {s : Pool} {out : ℕ → List ℕ} (i p : ℕ)
      → i < 4
      → 0 < occurrences p (out i)
      → Reach buff s out
      → Reach buff (deallocate buff p s) (update out i (remove p (out i)))

-- What a search from `line` on comes to.
pub data Took (s : Pool) (left line : ℕ) : Pool × ℕ → Type 0 where
  nothing : ((j : ℕ) → line ≤ j → j < line + left → s.free j ≡ []) → Took s left line (s, 0)
  block :
      (i p : ℕ) (rest : List ℕ)
      → line ≤ i
      → i < line + left
      → s.free i ≡ p ∷ rest
      → Took s left line (record s { free = update s.free i rest }, p)

List-cases : (xs : List ℕ) → (xs ≡ []) ⊎ ((x : ℕ) × ((ys : List ℕ) × (xs ≡ x ∷ ys)))
List-cases [] = inl refl
List-cases (x ∷ ys) = inr (x, (ys, refl))

Took-later :
    (s : Pool) (left line : ℕ) (r : Pool × ℕ)
    → s.free line ≡ []
    → Took s left (line + 1) r
    → Took s (suc left) line r
Took-later s left line r e (nothing h) = nothing (λ j a b. elim (Bool-cases (j == line)) [
  | inl y ↦ ground (arith, y, e)
  | inr m ↦ h j (ground (arith, m)) (ground arith)
])
Took-later s left line r e (block i p rest a b c) = block i p rest (ground arith) (ground arith) c

allocate_from-Took : (left line : ℕ) (s : Pool) → Took s left line (allocate_from left line s)
unfolding allocate_from
allocate_from-Took zero line s = nothing (λ j a b. ground arith)
allocate_from-Took (suc left) line s = elim (List-cases (s.free line)) [
  | inl e ↦
      rw (allocate_from, e)
        (Took-later s left line (allocate_from left (line + 1) s) e
          (allocate_from-Took left (line + 1) s))
  | inr (p, (rest, e)) ↦ rw (allocate_from, e) (block line p rest (ground arith) (ground arith) e)
]

pub match_line_le : (n : ℕ) → match_line n ≤ 4
unfolding match_line
match_line_le n = ground arith

pub allocate-Took : (n : ℕ) (s : Pool) → Took s (4 - match_line n) (match_line n) (allocate n s)
unfolding allocate
allocate-Took n s = allocate_from-Took (4 - match_line n) (match_line n) s

-- A block of line `i` lies in it, with all its bytes.
pub line_bounds :
    (buff i p : ℕ)
    → i < 4
    → 0 < occurrences p (line_blocks buff i)
    → (buff + i * line_width ≤ p) × (p + block_size i ≤ buff + (i + 1) * line_width)
line_bounds buff i p h o =
    block_bounds (capacity i) (block_size i) (buff + i * line_width) p (buff + (i + 1) * line_width)
      o (ground (arith, widths i h, suc-mul i line_width))

pub positive_size : (i : ℕ) → i < 4 → 0 < block_size i
positive_size zero h = ground arith
positive_size (suc zero) h = ground arith
positive_size (suc (suc zero)) h = ground arith
positive_size (suc (suc (suc zero))) h = ground arith
positive_size (suc (suc (suc (suc i)))) h = ground arith

known_line :
    (buff i p : ℕ) → i < 4 → 0 < occurrences p (line_blocks buff i) → calc_line buff p ≡ some i
known_line buff i p h o =
    calc_line_lem buff i p h (ground (arith, line_bounds buff i p h o, positive_size i h))

-- A line whose list begins with a block.
pub record Taken (buff : ℕ) (s : Pool) (out : ℕ → List ℕ) (i p : ℕ) : Type 0 where
  pub known : calc_line buff p ≡ some i
  pub lower : buff + i * line_width ≤ p
  pub upper : p + block_size i ≤ buff + (i + 1) * line_width
  pub standing : 0 < occurrences p (line_blocks buff i)
  pub not_lent : occurrences p (out i) ≡ 0

pub taken_lem :
    (buff i p : ℕ) (rest : List ℕ) (s : Pool) (out : ℕ → List ℕ)
    → IsSound buff s out
    → i < 4
    → s.free i ≡ p ∷ rest
    → Taken buff s out i p
taken_lem buff i p rest s out inv h e = record {
  known = known_line buff i p h standing_lem;
  lower = ground (arith, line_bounds buff i p h standing_lem);
  upper = ground (arith, line_bounds buff i p h standing_lem);
  standing = standing_lem;
  not_lent = ground (
    arith,
    first,
    inv.whole i p h,
    blocks_once (capacity i) (block_size i) (buff + i * line_width) p (positive_size i h),
  );
}
  where
    first : 0 < occurrences p (s.free i)
    first = rw e (ground arith)

    standing_lem : 0 < occurrences p (line_blocks buff i)
    standing_lem = ground (arith, first, inv.whole i p h)

pub lend_block :
    (buff i p : ℕ) (out : ℕ → List ℕ)
    → calc_line buff p ≡ some i
    → lend buff p out ≡ update out i (p ∷ out i)
lend_block buff i p out e = rw (lend, e) refl

pub lend_null : (buff : ℕ) (out : ℕ → List ℕ) → 0 < buff → lend buff 0 out ≡ out
unfolding calc_line
lend_null buff out h = ground arith

pub block-IsSound :
    (buff i p : ℕ) (rest : List ℕ) (s : Pool) (out : ℕ → List ℕ)
    → IsSound buff s out
    → i < 4
    → s.free i ≡ p ∷ rest
    → IsSound buff (record s { free = update s.free i rest }) (update out i (p ∷ out i))
block-IsSound buff i p rest s out inv h e = record {
  whole = λ j q l. ground (arith, e, inv.whole j q l);
  room = λ j l. ground (arith, e, inv.room j l);
}

Took-IsSound :
    (buff left line : ℕ) (s : Pool) (out : ℕ → List ℕ) (r : Pool × ℕ)
    → 0 < buff
    → line + left ≤ 4
    → IsSound buff s out
    → Took s left line r
    → IsSound buff r.0 (lend buff r.1 out)
Took-IsSound buff left line s out r pos w inv (nothing h) = rw (lend_null buff out pos) inv
Took-IsSound buff left line s out r pos w inv (block i p rest a b e) =
    rw (lend_block buff i p out (taken_lem buff i p rest s out inv (ground arith) e).known)
      (block-IsSound buff i p rest s out inv (ground arith) e)

pub occurrences-remove :
    (p q : ℕ) (xs : List ℕ)
    → 0 < occurrences p xs
    → (occurrences q (remove p xs) + (if p == q then 1 else 0) ≡ occurrences q xs)
      × (length (remove p xs) + 1 ≡ length xs)
occurrences-remove p q [] h = ground arith
occurrences-remove p q (x ∷ xs) h = elim (Bool-cases (x == p)) [
  | inl y ↦ ground (arith, y)
  | inr m ↦ ground (arith, m, h, occurrences-remove p q xs)
]

-- A block that is handed out has room on its list.
pub given_back :
    (buff i p : ℕ) (s : Pool) (out : ℕ → List ℕ)
    → 0 < buff
    → IsSound buff s out
    → i < 4
    → 0 < occurrences p (out i)
    → deallocate buff p s ≡ record s { free = update s.free i (p ∷ s.free i) }
unfolding deallocate
given_back buff i p s out pos inv h o =
    ground (
      arith,
      known,
      line_bounds buff i p h standing,
      inv.room i h,
      occurrences-remove p p (out i) o,
    )
  where
    standing : 0 < occurrences p (line_blocks buff i)
    standing = ground (arith, inv.whole i p h)

    known : calc_line buff p ≡ some i
    known = known_line buff i p h standing

back-IsSound :
    (buff i p : ℕ) (s : Pool) (out : ℕ → List ℕ)
    → IsSound buff s out
    → i < 4
    → 0 < occurrences p (out i)
    → IsSound buff
        (record s { free = update s.free i (p ∷ s.free i) })
        (update out i (remove p (out i)))
back-IsSound buff i p s out inv h o = record {
  whole = λ j q l. ground (arith, inv.whole j q l, occurrences-remove p q (out i) o);
  room = λ j l. ground (arith, inv.room j l, occurrences-remove p p (out i) o);
}

pub Reach-IsSound :
    (buff : ℕ) (s : Pool) (out : ℕ → List ℕ) → 0 < buff → Reach buff s out → IsSound buff s out
Reach-IsSound buff s out pos initial = init-IsSound buff
Reach-IsSound buff s out pos (allocates {s = t} {out = o} n r) =
    Took-IsSound buff (4 - match_line n) (match_line n) t o (allocate n t) pos
      (ground (arith, match_line_le n)) (Reach-IsSound buff t o pos r) (allocate-Took n t)
Reach-IsSound buff s out pos (deallocates {s = t} {out = o} i p h l r) =
    rw (given_back buff i p t o pos (Reach-IsSound buff t o pos r) h l)
      (back-IsSound buff i p t o (Reach-IsSound buff t o pos r) h l)
