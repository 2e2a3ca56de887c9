-- ===== src/Queue/Mpmc/Alone.antt =====
-- `mpmc_queue` at rest, and calls of it that no other thread interrupts, against the abstract queue.
use native.Mathlib.Nat.{div-le_self, add-mod_right, add-div_right}
use native.Mathlib.Decide.{ℕ_discrete}
use flux_foundry.Prelude.{
  ℕ, zero, suc, ◌+◌, ◌-◌, ◌*◌, ◌/◌, ◌%◌, ◌^◌, ◌≤◌, ◌<◌, ◌≡◌, ◌≢◌, ◌↔◌, refl, inl, inr, true, false,
  Option, none, some, List, [], ◌∷◌, ◌++◌, length, get_elem?, length-append, arith, next_round,
  add64, ltb, ◌==◌, ◌&&◌, Bool-cases, cell-ne, Option-cases, ◌∙◌, ap, sym,
}
use flux_foundry.Queue.Fifo.{put, take}
use flux_foundry.Queue.Mpmc.{
  Mpmc, Mode, Pc, emplaced, popped, empty_seq, full_seq, gives_up, set_sequence, set_storage,
  run_alone, try_emplace, try_pop, size, empty,
}
use flux_foundry.Queue.Mpmc.Inv.{seq, stored, Inv}
use flux_foundry.Queue.Mpmc.Claims.{empty_seq_exact, full_seq_exact}
use flux_foundry.Queue.Mpmc.System.{
  System, IsResting, Reach, Reach-Inv, produces_of_resting, consumes_of_resting,
}

module _ {A : Type 0} where
  -- What the last cell of a list holds, and the others.
  get_elem?-append_last : (xs : List A) (x : A) → get_elem? (xs ++ (x ∷ [])) (length xs) ≡ some x
  get_elem?-append_last [] x = refl
  get_elem?-append_last (y ∷ xs) x = get_elem?-append_last xs x

  get_elem?-append_init :
      (xs : List A) (x : A) (k : ℕ) → k < length xs → get_elem? (xs ++ (x ∷ [])) k ≡ get_elem? xs k
  get_elem?-append_init [] x k h = elim h [ ]
  get_elem?-append_init (y ∷ xs) x zero h = refl
  get_elem?-append_init (y ∷ xs) x (suc k) h = get_elem?-append_init xs x k (omega arith)

  -- The queue `q` holds the objects `xs`, oldest first, and no thread is inside a call.
  pub record Holds (cap : ℕ) (q : Mpmc A) (xs : List A) : Type 0 where
    pub counted : q.tail ≡ q.head + length xs
    pub room : length xs ≤ cap
    pub full : (i : ℕ) → q.head ≤ i → i < q.tail → seq cap q i ≡ 2 * (i / cap) + 1
    pub items : (i : ℕ) → q.head ≤ i → i < q.tail → stored cap q i ≡ get_elem? xs (i - q.head)
    pub free : (i : ℕ) → q.tail ≤ i → i < q.head + cap → seq cap q i ≡ 2 * (i / cap)

  -- The objects of the tickets from `h` on, where each is there.
  listed :
      (l : ℕ → Option A) (h n : ℕ)
      → ((i : ℕ) → h ≤ i → i < h + n → l i ≢ none)
      → (xs : List A) × (length xs ≡ n) × ((i : ℕ) → h ≤ i → i < h + n → get_elem? xs (i - h) ≡ l i)
  listed l h zero some_all = ([], refl, λ i a b. absurd (omega arith))
  listed l h (suc n) some_all =
      let (xs, size, same) = listed l h n (λ i a b. some_all i a (omega arith)) in
      elim (Option-cases (l (h + n))) [
        | inl gone ↦ absurd (some_all (h + n) (omega arith) (omega arith) gone)
        | inr (y, there) ↦ (
          xs ++ (y ∷ []),
          omega (arith, length-append xs (y ∷ [])),
          λ i a b. elim (ℕ_discrete i (h + n)) [
            | yes last ↦
                rw (last, there, let k : h + n - h ≡ length xs = omega arith in k)
                  (get_elem?-append_last xs y)
            | no before ↦ get_elem?-append_init xs y (i - h) (omega arith) ∙ same i a (omega arith)
          ],
        )
      ]

  module _ {cap : ℕ} {q : Mpmc A} {xs : List A} (pos : 0 < cap) (holds : Holds cap q xs)
      (small : q.tail < 2 ^ 62) (x : A) where
    emplaced_queue : Mpmc A
    emplaced_queue =
        set_sequence (set_storage (record q { tail = q.tail + 1 }) (q.tail % cap) (some x))
          (q.tail % cap) (2 * (q.tail / cap) + 1)

    emplace-Holds : length xs < cap → Holds cap emplaced_queue (xs ++ (x ∷ []))
    unfolding emplaced_queue
    emplace-Holds less = record {
      counted = omega (arith, holds.counted, length-append xs (x ∷ []));
      room = omega (arith, length-append xs (x ∷ []));
      full = λ i h k. ground (arith, holds.counted, holds.full i h, cell-ne cap i q.tail);
      items = λ i h k. ground (
        arith,
        holds.counted,
        holds.items i h,
        cell-ne cap i q.tail,
        get_elem?-append_last xs x,
        get_elem?-append_init xs x (i - q.head),
      );
      free = λ i h k. ground (arith, holds.counted, holds.free i, cell-ne cap q.tail i);
    }

    -- The tests of `try_emplace` while there is room.
    emplace_tests :
        length xs < cap
        → (gives_up Mode.attempt (seq cap q q.tail) (empty_seq cap q.tail) ≡ false)
          × (((seq cap q q.tail == empty_seq cap q.tail) && (q.tail == q.tail)) ≡ true)
    emplace_tests less =
        ground (arith, holds.counted, holds.free q.tail, empty_seq_exact cap q.tail small)

    emplace_eq : length xs < cap → try_emplace cap q x ≡ (emplaced_queue, emplaced true)
    unfolding try_emplace emplaced_queue
    emplace_eq less =
        let (open_, won) = emplace_tests less in
        rw (open_, won, run_alone)
          (rw (
            let ticket : add64 q.tail 1 ≡ q.tail + 1 = omega arith in ticket,
            full_seq_exact cap q.tail small,
          ))

    -- With `cap` objects the slot of the next ticket is one round behind.
    emplace_shut :
        length xs ≡ cap → gives_up Mode.attempt (seq cap q q.tail) (empty_seq cap q.tail) ≡ true
    emplace_shut e =
        let (cell, turn) = next_round cap q.tail pos (omega (arith, holds.counted)) in
        let behind : seq cap q q.tail + 1 ≡ 2 * (q.tail / cap) =
          rw (← cell, seq)
            (omega (
              arith,
              turn,
              holds.counted,
              holds.full (q.tail - cap) (omega (arith, holds.counted))
                  (omega (arith, holds.counted)),
            )) in
        ground (arith, empty_seq_exact cap q.tail small, div-le_self q.tail cap)

    emplace_full : length xs ≡ cap → try_emplace cap q x ≡ (q, emplaced false)
    unfolding try_emplace
    emplace_full e = rw (emplace_shut e, run_alone)

  module _ {cap : ℕ} (q : Mpmc A) (pos : 0 < cap) (small : q.tail < 2 ^ 62) where
    popped_queue : Mpmc A
    popped_queue =
        set_sequence (set_storage (record q { head = q.head + 1 }) (q.head % cap) none)
          (q.head % cap) (2 * (q.head / cap) + 2)

    pop-Holds : (x : A) (xs : List A) → Holds cap q (x ∷ xs) → Holds cap popped_queue xs
    unfolding popped_queue
    pop-Holds x xs holds = record {
      counted = omega (arith, holds.counted);
      room = omega (arith, holds.room);
      full = λ i h k. ground (arith, holds.counted, holds.room, holds.full i, cell-ne cap q.head i);
      items = λ i h k.
          let shift : i - q.head ≡ suc (i - (q.head + 1)) = omega arith in
          ground (arith, holds.counted, holds.room, holds.items i, cell-ne cap q.head i, shift);
      free = λ i h k. elim (ℕ_discrete i (q.head + cap)) [
        | yes e ↦ ground (arith, add-mod_right q.head cap, add-div_right q.head pos)
        | no ne ↦ ground (arith, holds.counted, holds.free i, cell-ne cap q.head i)
      ];
    }

    pop_eq :
        (x : A) (xs : List A)
        → Holds cap q (x ∷ xs)
        → try_pop cap q ≡ (popped_queue, popped (some x))
    unfolding try_pop popped_queue
    pop_eq x xs holds =
        let bound : q.head < 2 ^ 62 = omega (arith, holds.counted) in
        let odd : seq cap q q.head ≡ 2 * (q.head / cap) + 1 =
          holds.full q.head (omega arith) (omega (arith, holds.counted)) in
        let item : stored cap q q.head ≡ some x =
          holds.items q.head (omega arith) (omega (arith, holds.counted))
          ∙ ap (get_elem? (x ∷ xs)) {x = q.head - q.head} {y = 0} (omega arith) in
        let open_ : gives_up Mode.attempt (seq cap q q.head) (full_seq cap q.head) ≡ false =
          ground (arith, full_seq_exact cap q.head bound) in
        let won : ((seq cap q q.head == full_seq cap q.head) && (q.head == q.head)) ≡ true =
          ground (arith, full_seq_exact cap q.head bound) in
        let after : add64 (full_seq cap q.head) 1 ≡ 2 * (q.head / cap) + 2 =
          ground (arith, full_seq_exact cap q.head bound, div-le_self q.head cap) in
        rw (open_, won, run_alone)
          (rw (let ticket : add64 q.head 1 ≡ q.head + 1 = omega arith in ticket, after)
            (ap (λ (r : Option A). (popped_queue, popped r)) item))

    pop_empty : Holds cap q [] → try_pop cap q ≡ (q, popped none)
    unfolding try_pop
    pop_empty holds =
        let bound : q.head < 2 ^ 62 = omega (arith, holds.counted) in
        let even : seq cap q q.head ≡ 2 * (q.head / cap) =
          holds.free q.head (omega (arith, holds.counted)) (omega arith) in
        let shut : gives_up Mode.attempt (seq cap q q.head) (full_seq cap q.head) ≡ true =
          ground (arith, full_seq_exact cap q.head bound, div-le_self q.head cap) in
        rw (shut, run_alone)

  -- Alone, `try_emplace` of a queue that holds `xs` does what the abstract queue does: it appends the
  -- object and returns true while there is room, and returns false and changes nothing when it is full.
  pub try_emplace_refines :
      {cap : ℕ} {q : Mpmc A} {xs : List A} (x : A)
      → 0 < cap
      → q.tail < 2 ^ 62
      → Holds cap q xs
      → let (ys, done) = put cap x xs in
        ((try_emplace cap q x).1 ≡ emplaced done) × Holds cap (try_emplace cap q x).0 ys
  try_emplace_refines {cap} {q} {xs} x pos small holds = elim (Bool-cases (ltb (length xs) cap)) [
    | inl less ↦
        rw (less, emplace_eq pos holds small x (ground arith))
          (refl, emplace-Holds pos holds small x (ground arith))
    | inr full ↦
        rw (full, emplace_full pos holds small x (ground (arith, holds.room))) (refl, holds)
  ]

  -- Alone, `try_pop` of a queue that holds `xs` takes out and returns the oldest object, and returns
  -- nothing and changes nothing when there is none.
  pub try_pop_refines :
      {cap : ℕ} {q : Mpmc A} (xs : List A)
      → 0 < cap
      → q.tail < 2 ^ 62
      → Holds cap q xs
      → let (ys, res) = take xs in ((try_pop cap q).1 ≡ popped res) × Holds cap (try_pop cap q).0 ys
  try_pop_refines {q = q} [] pos small holds = rw (pop_empty q pos small holds) (refl, holds)
  try_pop_refines {q = q} (x ∷ xs) pos small holds =
      rw (pop_eq q pos small x xs holds) (refl, pop-Holds q pos small x xs holds)

  -- `size` counts the objects of a queue at rest, and `empty` tells whether there is none.
  pub size-Holds :
      {cap : ℕ} {q : Mpmc A} (xs : List A)
      → q.tail < 2 ^ 62
      → Holds cap q xs
      → (size cap q ≡ length xs) × ((empty cap q ≡ true) ↔ (length xs ≡ 0))
  unfolding size empty
  size-Holds xs small holds = ground (arith, holds.counted)

module _ {A : Type 0} {cap n : ℕ} {q : Mpmc A} {l : ℕ → Option A} {pc : ℕ → Pc A}
    (inv : Inv cap n q l pc) (rest : (p : ℕ) → IsResting (pc p)) where
  Holds-of_rest :
      (xs : List A)
      → length xs ≡ q.tail - q.head
      → ((i : ℕ) → q.head ≤ i → i < q.head + (q.tail - q.head) → get_elem? xs (i - q.head) ≡ l i)
      → Holds cap q xs
  Holds-of_rest xs size same = record {
    counted = omega (arith, inv.order);
    room = omega (arith, inv.within);
    full = published;
    items = λ i h k. inv.holding i (published i h k) h ∙ sym (same i h (omega (arith, inv.order)));
    free = λ i h k. elim (inv.vacant i h k) [
      | inl e ↦ e
      | inr (p, le, e) ↦ ground (arith, consumes_of_resting (pc p) (rest p))
    ];
  }
    where
      published : (i : ℕ) → q.head ≤ i → i < q.tail → seq cap q i ≡ 2 * (i / cap) + 1
      published i h k = elim (inv.pending i h k) [
        | inl e ↦ e
        | inr (p, e) ↦ ground (arith, produces_of_resting (pc p) (rest p))
      ]

-- Nothing is lost: whenever every thread has returned from its calls, after fewer than 2 ^ 62 steps,
-- the queue holds, oldest first, exactly the objects of the tickets that were not yet popped.
pub rest-Holds :
    {A : Type 0} {cap n : ℕ} {s : System A}
    → 0 < cap
    → n < 2 ^ 62
    → Reach cap n s
    → ((p : ℕ) → IsResting (s.pc p))
    → (xs : List A) × Holds cap s.queue xs
      × ((i : ℕ)
          → s.queue.head ≤ i
          → i < s.queue.tail
          → get_elem? xs (i - s.queue.head) ≡ s.history i)
rest-Holds {s = s} pos small r rest =
    let inv = Reach-Inv pos small r in
    let (xs, size, same) =
      listed s.history s.queue.head (s.queue.tail - s.queue.head)
        (λ i a b. inv.logged i (omega (arith, inv.order))) in
    (xs, Holds-of_rest inv rest xs size same, λ i h k. same i h (omega (arith, inv.order)))
