-- ===== src/LitePtr.antt =====
-- `lite_ptr` of memory/lite_ptr.h: pointers that share control blocks. Pointers and blocks are
-- numbers; each call is one step, since its accesses to the shared count are single atomic updates.
pub mod Sharing
mod Tests
use flux_foundry.Prelude.{ℕ, ◌+◌, Option, none, some, ◌==◌, if◌then◌else◌, add64, sub64, update}

-- The pointers' member `cb`, the counts of the blocks, how often each block was destroyed and given
-- back to its allocator, and the number of blocks made so far.
pub record Heap : Type 0 where
  pub cb : ℕ → Option ℕ
  pub count : ℕ → ℕ
  pub destroyed : ℕ → ℕ
  pub made : ℕ

abbrev pub fresh : Heap
fresh = record { cb = λ h. none; count = λ b. 0; destroyed = λ b. 0; made = 0 }

-- `emplace_with_allocator`, where the allocation succeeds.
unfoldable pub make : Heap → ℕ → Heap
make s h = record s {
  cb = update s.cb h (some s.made);
  count = update s.count s.made 1;
  made = s.made + 1;
}

unfoldable pub retain : Heap → ℕ → Heap
retain s h = elim (s.cb h) [
  | none ↦ s
  | some b ↦ record s { count = update s.count b (add64 (s.count b) 1) }
]

-- `release`, which the destructor calls.
unfoldable pub release : Heap → ℕ → Heap
release s h = elim (s.cb h) [
  | none ↦ s
  | some b ↦ record s {
    cb = update s.cb h none;
    count = update s.count b (sub64 (s.count b) 1);
    destroyed = if s.count b == 1 then update s.destroyed b (s.destroyed b + 1) else s.destroyed;
  }
]

unfoldable pub copy_construct : Heap → ℕ → ℕ → Heap
unfolding retain
copy_construct s h rhs = retain (record s { cb = update s.cb h (s.cb rhs) }) rhs

unfoldable pub move_construct : Heap → ℕ → ℕ → Heap
move_construct s h rhs = record s { cb = update (update s.cb h (s.cb rhs)) rhs none }

-- `cb = rhs.cb`, unless it is null.
abbrev pub assign_cb : Heap → ℕ → ℕ → Heap
assign_cb s h rhs = elim (s.cb rhs) [ none ↦ s | some b ↦ record s { cb = update s.cb h (some b) } ]

unfoldable pub copy_assign : Heap → ℕ → ℕ → Heap
unfolding release retain
copy_assign s h rhs = if h == rhs then s else assign_cb (retain (release s h) rhs) h rhs

unfoldable pub move_assign : Heap → ℕ → ℕ → Heap
unfolding release move_construct
move_assign s h rhs = if h == rhs then s else move_construct (release s h) h rhs

unfoldable pub swap : Heap → ℕ → ℕ → Heap
swap s h rhs = record s { cb = update (update s.cb h (s.cb rhs)) rhs (s.cb h) }

unfoldable pub use_count : Heap → ℕ → ℕ
use_count s h = elim (s.cb h) [ none ↦ 0 | some b ↦ s.count b ]
