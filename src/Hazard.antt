-- ===== src/Hazard.antt =====
-- `hazard_ptr` and `hp_mgr` of memory/hazard_ptr.h: readers that protect a pointer with a slot, and
-- the scan of all slots before a retired object is deleted. A store to a slot waits in a store buffer
-- and reaches the memory later, in the order of the stores, while the thread goes on to its loads: the
-- release stores and acquire loads of the source allow this, and a processor with store buffers
-- does it. Objects and targets are numbers, 0 is the null pointer; a `hazard_ptr` has the number of
-- the slot that `acquire_slot` gave it.
pub mod Safety
pub mod Sweep
mod Tests
use flux_foundry.Prelude.{
  ℕ, zero, suc, ◌+◌, ◌-◌, ◌<◌, ◌≡◌, ◌≢◌, Bool, true, false, List, [], ◌∷◌, ◌++◌, ◌==◌, ltb,
  if◌then◌else◌, update,
}

-- `MAX_SLOT`
abbrev pub max_slot : ℕ
max_slot = 128

-- A `hazard_ptr`: at rest, in `protect` before the load of the target, before the store to the slot
-- and before the second load, or with the pointer that `protect` returned; `in_order` notes whether
-- the store had reached the memory when the second load was done.
pub data Reader : Type 0 where
  rests : Reader
  reads : (target : ℕ) → Reader
  publishes : (target p : ℕ) → Reader
  rereads : (target p : ℕ) → Reader
  holds : (p : ℕ) → (in_order : Bool) → Reader

-- An object: not retired, under the scan of `is_hazard` before slot `i`, kept in a retire list, or
-- given to its deleter.
pub data Life : Type 0 where
  linked : Life
  scanned : (i : ℕ) → Life
  kept : Life
  deleted : Life

-- The targets that hold the pointers, the slots' `ptr` in memory with the stores that wait, oldest
-- first, and the slots that a second `hazard_ptr` was given.
pub record Hazards : Type 0 where
  pub targets : ℕ → ℕ
  pub slots : ℕ → ℕ
  pub buffers : ℕ → List ℕ
  pub shared : ℕ → Bool
  pub readers : ℕ → Reader
  pub life : ℕ → Life

abbrev pub start : Hazards
start = record {
  targets = λ a. 0;
  slots = λ k. 0;
  buffers = λ k. [];
  shared = λ k. false;
  readers = λ k. rests;
  life = λ p. linked;
}

abbrev pub is_empty : List ℕ → Bool
is_empty [] = true
is_empty (v ∷ vs) = false

-- What the thread of a slot itself reads in it.
abbrev pub latest : ℕ → List ℕ → ℕ
latest slot [] = slot
latest slot (v ∷ vs) = latest v vs

-- The oldest store that waits reaches the memory.
abbrev pub drain : ℕ → List ℕ → Hazards → Hazards
drain k [] s = s
drain k (v ∷ vs) s = record s { slots = update s.slots k v; buffers = update s.buffers k vs }

-- One access of `protect`, by the reader with slot `k`.
abbrev pub protect_step : ℕ → Reader → Hazards → Hazards
protect_step k rests s = s
protect_step k (reads a) s = record s { readers = update s.readers k (publishes a (s.targets a)) }
protect_step k (publishes a p) s = record s {
  buffers = update s.buffers k (s.buffers k ++ (p ∷ []));
  readers = update s.readers k (rereads a p);
}
protect_step k (rereads a p) s = record s {
  readers =
      update s.readers k (if p == s.targets a then holds p (is_empty (s.buffers k)) else reads a);
}
protect_step k (holds p in_order) s = s

-- `unprotect`, and the destructor of `hazard_ptr`
abbrev pub unprotect : ℕ → Hazards → Hazards
unprotect k s = record s {
  buffers = update s.buffers k (s.buffers k ++ (0 ∷ []));
  readers = update s.readers k rests;
}

-- What a thread with the slots `own` loads from a slot.
abbrev pub view : (ℕ → Bool) → Hazards → ℕ → ℕ
view own s k = if own k then latest (s.slots k) (s.buffers k) else s.slots k

-- One turn of the loop of `is_hazard`, and what `retire` or a sweep does with its answer.
unfoldable pub scan_step : (ℕ → ℕ) → ℕ → Life → Life
scan_step slots p linked = linked
scan_step slots p (scanned i) =
    if ltb i max_slot then (if slots i == p then kept else scanned (i + 1)) else deleted
scan_step slots p kept = kept
scan_step slots p deleted = deleted

-- Whether a `hazard_ptr` may be called; its calls are not concurrent.
abbrev pub IsIdle : Reader → Type 0
IsIdle rests = Unit {0}
IsIdle (reads a) = ⊥
IsIdle (publishes a p) = ⊥
IsIdle (rereads a p) = ⊥
IsIdle (holds p in_order) = Unit {0}

-- The steps. The users keep the rules of the algorithm: an object is retired when no target holds
-- it, and no target is set to an object that is retired; they set the targets by exchanges, which do
-- not wait. A thread that ends may leave its slot to two others (`shares`, by the order of the stores
-- in the destructor of `hp_owner`); from then on anything may be written to the slot.
pub data Step (s : Hazards) : Hazards → Type 0 where
  call_protect :
      (k a : ℕ)
      → k < max_slot
      → IsIdle (s.readers k)
      → Step s (record s { readers = update s.readers k (reads a) })
  protects : (k : ℕ) → k < max_slot → Step s (protect_step k (s.readers k) s)
  call_unprotect : (k : ℕ) → k < max_slot → IsIdle (s.readers k) → Step s (unprotect k s)
  stores : (a p : ℕ) → s.life p ≡ linked → Step s (record s { targets = update s.targets a p })
  retires :
      (p : ℕ)
      → s.life p ≡ linked
      → ((a : ℕ) → s.targets a ≢ p)
      → Step s (record s { life = update s.life p (scanned 0) })
  sweeps : (p : ℕ) → s.life p ≡ kept → Step s (record s { life = update s.life p (scanned 0) })
  drains : (k : ℕ) → Step s (drain k (s.buffers k) s)
  shares : (k : ℕ) → Step s (record s { shared = update s.shared k true })
  overwrites : (k v : ℕ) → s.shared k ≡ true → Step s (record s { slots = update s.slots k v })
  scans :
      (own : ℕ → Bool) (p : ℕ)
      → Step s (record s { life = update s.life p (scan_step (view own s) p (s.life p)) })

pub data Reach : ℕ → Hazards → Type 0 where
  initial : Reach zero start
  next : {n : ℕ} {s t : Hazards} → Reach n s → Step s t → Reach (suc n) t
