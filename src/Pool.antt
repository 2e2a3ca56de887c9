-- ===== src/Pool.antt =====
-- `static_mem_pool<256, 1024>` of memory/static_mem_pool.h, which memory/pooling.h allocates from.
-- `buff` is the address of its buffer, and 0 the null pointer. Its free lists are stacks as
-- utility/static_stack.h promises them; calls are whole, as the stacks' are.
pub mod Lines
pub mod Blocks
pub mod Reuse
pub mod Memory
mod Tests
use flux_foundry.Prelude.{
  ℕ, zero, suc, ◌+◌, ◌-◌, ◌*◌, ◌/◌, ◌^◌, ◌<◌, ◌≤◌, ◌≡◌, Bool, true, false, ◌||◌, Option, none, some,
  List, [], ◌∷◌, ◌==◌, ltb, leb, if◌then◌else◌, update,
}
use flux_foundry.StaticStack.Laws.{abstract_push, abstract_pop}

abbrev pub max_block_count : ℕ
max_block_count = 256

abbrev pub max_block_size : ℕ
max_block_size = 1024

abbrev pub maxoff : ℕ
maxoff = 3

abbrev pub min_block_size : ℕ
min_block_size = 128

abbrev pub line_width : ℕ
line_width = 262144

-- The capacity of `list_t<line>`.
abbrev pub capacity : ℕ → ℕ
capacity line = max_block_count * 2 ^ (maxoff - line)

-- `free_0` to `free_3` by their number.
pub record Pool : Type 0 where
  pub free : ℕ → List ℕ

unfoldable pub match_line : ℕ → ℕ
match_line n =
    if leb n min_block_size
    then 0
    else if leb n (min_block_size * 2)
    then 1
    else if leb n (min_block_size * 4)
    then 2
    else if leb n (min_block_size * 8)
    then 3
    else 4

abbrev pub block_size : ℕ → ℕ
block_size i = min_block_size * 2 ^ i

-- `none` is -1.
unfoldable pub calc_line : ℕ → ℕ → Option ℕ
calc_line buff ptr =
    if ltb ptr buff || leb (buff + 4 * line_width) ptr
    then none
    else some ((ptr - buff) / line_width)

unfoldable pub belong_to : ℕ → ℕ → Bool
unfolding calc_line
belong_to buff ptr = elim (calc_line buff ptr) [ none ↦ false | some line ↦ true ]

-- One loop of the constructor: `n` blocks from `p` on, with what it leaves in `p`.
unfoldable pub fill : (line n p : ℕ) → List ℕ → List ℕ × ℕ
fill line zero p xs = (xs, p)
fill line (suc n) p xs = fill line n (p + block_size line) (abstract_push (capacity line) p xs).0

unfoldable pub init : ℕ → Pool
unfolding fill
init buff =
    let (free_0, p_1) = fill 0 (max_block_count * 8) buff [] in
    let (free_1, p_2) = fill 1 (max_block_count * 4) p_1 [] in
    let (free_2, p_3) = fill 2 (max_block_count * 2) p_2 [] in
    let (free_3, p_4) = fill 3 (max_block_count * 1) p_3 [] in
    record {
      free = λ i.
          if i == 0
          then free_0
          else if i == 1
          then free_1
          else if i == 2
          then free_2
          else if i == 3
          then free_3
          else [];
    }

-- The cases of the `switch` from `line` on, `left` of them; 0 is the null pointer of the default.
unfoldable pub allocate_from : (left line : ℕ) → Pool → Pool × ℕ
allocate_from zero line s = (s, 0)
allocate_from (suc left) line s =
    let next = allocate_from left (line + 1) s in
    elim (s.free line) [ [] ↦ next | p ∷ rest ↦ (record s { free = update s.free line rest }, p) ]

unfoldable pub allocate : ℕ → Pool → Pool × ℕ
unfolding allocate_from match_line
allocate n s = allocate_from (4 - match_line n) (match_line n) s

unfoldable pub deallocate : ℕ → ℕ → Pool → Pool
unfolding calc_line
deallocate buff ptr s = if ptr == 0 then s else elim (calc_line buff ptr) [
  | none ↦ s
  | some line ↦ record s {
    free = update s.free line (abstract_push (capacity line) ptr (s.free line)).0;
  }
]
