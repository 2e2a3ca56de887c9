-- ===== src/StaticStack.antt =====
-- `static_stack` of utility/static_stack.h: two lists, the objects' and the free nodes', linked
-- through one array by tags, each an index with a sequence number above it. A call runs alone here,
-- so that a compare-exchange of the value just loaded succeeds at once.
pub mod Rep
pub mod Laws
pub mod Init
mod Tests
use flux_foundry.Prelude.{
  ℕ, zero, suc, ◌+◌, ◌-◌, ◌*◌, ◌/◌, ◌%◌, ◌^◌, Bool, true, false, Option, none, some, ◌==◌,
  if◌then◌else◌, add64, w64, update,
}

-- The loop of `off()`: `cap >>= 1, ++i` while `cap >= 1`; 64 rounds clear any 64-bit capacity.
off_loop : ℕ → ℕ → ℕ → ℕ
off_loop zero cap i = i
off_loop (suc fuel) cap i =
    let rest = off_loop fuel (cap / 2) (i + 1) in if cap == 0 then i else rest

unfoldable pub off : ℕ → ℕ
unfolding off_loop
off capacity = off_loop 64 capacity 0

-- `struct node`
pub record Node (A : Type 0) : Type 0 where
  pub satellite : Option A
  pub next : ℕ

pub record Stack (A : Type 0) : Type 0 where
  pub head : ℕ
  pub free : ℕ
  pub nodes : ℕ → Node A

-- `offset_msk()` has `off()` ones: `& offset_msk()` is `% range`; `seq_msk()` has the other 64 - `off()`.
module _ (capacity : ℕ) where
  abbrev pub range : ℕ
  range = 2 ^ off capacity

  abbrev pub seq_range : ℕ
  seq_range = 2 ^ (64 - off capacity)

  abbrev pub empty_tag : ℕ
  empty_tag = capacity

  -- `(seq << off()) | offset`: the offset has no bit in common with the shifted number.
  unfoldable pub make_seq : ℕ → ℕ → ℕ
  make_seq seq offset = w64 (seq * range) + offset

  unfoldable pub get_seq : ℕ → ℕ
  get_seq tag = tag / range % seq_range

  unfoldable pub get_offset : ℕ → ℕ
  get_offset tag = tag % range

  module _ {A : Type 0} where
    abbrev pub set_next : (ℕ → Node A) → ℕ → ℕ → ℕ → Node A
    set_next nodes o t = update nodes o (record { satellite = (nodes o).satellite; next = t })

    abbrev pub set_satellite : (ℕ → Node A) → ℕ → Option A → ℕ → Node A
    set_satellite nodes o x = update nodes o (record { satellite = x; next = (nodes o).next })

    -- The constructor: every node on the free list, in order.
    pub init : Stack A
    init = record {
      head = empty_tag;
      free = make_seq 0 0;
      nodes = λ i. record { satellite = none; next = i + 1 };
    }

    -- `pop_from_list` on a list whose head is `h`: the tag returned, and the list's new head.
    unfoldable pub pop_from_list : (ℕ → Node A) → ℕ → ℕ × ℕ
    pop_from_list nodes h =
        if h == empty_tag
        then (empty_tag, h)
        else (make_seq (get_seq h) (get_offset h), (nodes (get_offset h)).next)

    -- `append_to_list`: the nodes, and the list's new head.
    unfoldable pub append_to_list : (ℕ → Node A) → ℕ → ℕ → (ℕ → Node A) × ℕ
    append_to_list nodes h fptr = (set_next nodes (get_offset fptr) h, fptr)

    -- `push` and `emplace`, which differ in how the object is built.
    unfoldable pub push : Stack A → A → Stack A × Bool
    unfolding pop_from_list append_to_list
    push s val =
        let (h, free') = pop_from_list s.nodes s.free in
        let built = set_satellite s.nodes (get_offset h) (some val) in
        let (nodes', head') =
          append_to_list built s.head (make_seq ((get_seq h + 1) % seq_range) (get_offset h)) in
        if h == empty_tag
        then (s, false)
        else (record { head = head'; free = free'; nodes = nodes' }, true)

    unfoldable pub pop : Stack A → Stack A × Option A
    unfolding pop_from_list append_to_list
    pop s =
        let (h, head') = pop_from_list s.nodes s.head in
        let result = (s.nodes (get_offset h)).satellite in
        let (nodes', free') =
          append_to_list (set_satellite s.nodes (get_offset h) none) s.free
            (make_seq (get_seq h) (get_offset h)) in
        if h == empty_tag
        then (s, none)
        else (record { head = head'; free = free'; nodes = nodes' }, result)
