-- ===== src/Queue/Mpmc/Inv.antt =====
-- What holds between any two accesses of the threads that share one `mpmc_queue`.
use flux_foundry.Prelude.{
  ℕ, ◌+◌, ◌-◌, ◌*◌, ◌/◌, ◌%◌, ◌≤◌, ◌<◌, ◌≡◌, ◌≢◌, ◌⊎◌, Option, none, some, update,
}
use flux_foundry.Queue.Mpmc.{
  Mpmc, Pc, emplace_at, emplace_seen, emplace_claimed, emplace_built, pop_at, pop_seen, pop_claimed,
  pop_moved, pop_destroyed,
}

module _ {A : Type 0} where
  -- The ticket that a thread holds for writing, and the one that it holds for reading.
  abbrev pub produces : Pc A → Option ℕ
  produces (emplace_claimed obj i) = some i
  produces (emplace_built obj i) = some i
  produces _ = none

  abbrev pub consumes : Pc A → Option ℕ
  consumes (pop_claimed i) = some i
  consumes (pop_moved i res) = some i
  consumes (pop_destroyed i res) = some i
  consumes _ = none

  -- The history of the claimed tickets: which object each was claimed for.
  abbrev pub log : (ℕ → Option A) → Pc A → ℕ → Option A
  log l (emplace_claimed obj i) = update l i (some obj)
  log l _ = l

module _ {A : Type 0} (cap : ℕ) where
  abbrev pub seq : Mpmc A → ℕ → ℕ
  seq q i = (q.m_q (i % cap)).sequence

  abbrev pub stored : Mpmc A → ℕ → Option A
  stored q i = (q.m_q (i % cap)).storage

  -- What the locals of a thread say about the shared state.
  abbrev pub Local : Mpmc A → (ℕ → Option A) → Pc A → Type 0
  Local q l (emplace_at m obj i) = i ≤ q.tail
  Local q l (emplace_seen m obj i found) =
      (i ≤ q.tail) × (q.tail ≤ i → found ≡ 2 * (i / cap) → seq q i ≡ 2 * (i / cap))
  Local q l (emplace_claimed obj i) = (i < q.tail) × (seq q i ≡ 2 * (i / cap)) × (l i ≡ some obj)
  Local q l (emplace_built obj i) =
      (i < q.tail) × (seq q i ≡ 2 * (i / cap)) × (l i ≡ some obj) × (stored q i ≡ some obj)
  Local q l (pop_at m i) = i ≤ q.head
  Local q l (pop_seen m i found) =
      (i ≤ q.head) × (q.head ≤ i → found ≡ 2 * (i / cap) + 1 → seq q i ≡ 2 * (i / cap) + 1)
  Local q l (pop_claimed i) = (i < q.head) × (seq q i ≡ 2 * (i / cap) + 1) × (stored q i ≡ l i)
  Local q l (pop_moved i res) = (i < q.head) × (seq q i ≡ 2 * (i / cap) + 1) × (res ≡ l i)
  Local q l (pop_destroyed i res) = (i < q.head) × (seq q i ≡ 2 * (i / cap) + 1) × (res ≡ l i)
  Local q l _ = Unit

  -- The invariant after at most `n` steps.
  pub record Inv (n : ℕ) (q : Mpmc A) (l : ℕ → Option A) (pc : ℕ → Pc A) : Type 0 where
    pub few : q.tail ≤ n
    pub order : q.head ≤ q.tail
    pub within : q.tail ≤ q.head + cap
    pub local : (p : ℕ) → Local q l (pc p)
    pub one_producer : (p r i : ℕ) → produces (pc p) ≡ some i → produces (pc r) ≡ some i → p ≡ r
    pub one_consumer : (p r i : ℕ) → consumes (pc p) ≡ some i → consumes (pc r) ≡ some i → p ≡ r
    pub published : (i : ℕ) → seq q i ≡ 2 * (i / cap) + 1 → i < q.tail
    pub holding : (i : ℕ) → seq q i ≡ 2 * (i / cap) + 1 → q.head ≤ i → stored q i ≡ l i
    pub freed : (i : ℕ) → seq q i ≡ 2 * (i / cap) + 2 → i < q.head
    pub logged : (i : ℕ) → i < q.tail → l i ≢ none
    pub pending :
        (i : ℕ)
        → q.head ≤ i
        → i < q.tail
        → (seq q i ≡ 2 * (i / cap) + 1) ⊎ ((p : ℕ) × (produces (pc p) ≡ some i))
    pub vacant :
        (i : ℕ)
        → q.tail ≤ i
        → i < q.head + cap
        → (seq q i ≡ 2 * (i / cap)) ⊎ ((p : ℕ) × (cap ≤ i) × (consumes (pc p) ≡ some (i - cap)))
