-- ===== src/LitePtr/Sharing.antt =====
-- The counts of the `lite_ptr` blocks are the numbers of the pointers to them.
use flux_foundry.Prelude.{
  ℕ, ◌^◌, ◌<◌, ◌≡◌, ◌≢◌, refl, ◌&&◌, Option, none, some, ◌==◌, if◌then◌else◌, ltb, add64, update,
  tally, tally-update, tally-le, tally-zero, weight-le-tally, arith, Bool-cases, inl, inr,
}
use flux_foundry.LitePtr.{
  Heap, fresh, make, retain, release, copy_construct, move_construct, assign_cb, copy_assign,
  move_assign, swap, use_count,
}

-- Calls on the pointers below `n`; a constructor runs where no pointer is.
pub data Step (n : ℕ) (s : Heap) : Heap → Type 0 where
  makes : (h : ℕ) → h < n → s.cb h ≡ none → Step n s (make s h)
  releases : (h : ℕ) → h < n → Step n s (release s h)
  copy_constructs :
      (h rhs : ℕ) → h < n → rhs < n → s.cb h ≡ none → h ≢ rhs → Step n s (copy_construct s h rhs)
  move_constructs :
      (h rhs : ℕ) → h < n → rhs < n → s.cb h ≡ none → h ≢ rhs → Step n s (move_construct s h rhs)
  copy_assigns : (h rhs : ℕ) → h < n → rhs < n → Step n s (copy_assign s h rhs)
  move_assigns : (h rhs : ℕ) → h < n → rhs < n → Step n s (move_assign s h rhs)
  swaps : (h rhs : ℕ) → h < n → rhs < n → Step n s (swap s h rhs)

pub data Reach (n : ℕ) : Heap → Type 0 where
  initial : Reach n fresh
  later : {s t : Heap} → Reach n s → Step n s t → Reach n t

abbrev pub points : ℕ → Option ℕ → ℕ
points b none = 0
points b (some c) = if c == b then 1 else 0

-- The pointers to a block.
abbrev pub holders : ℕ → Heap → ℕ → ℕ
holders n s b = tally (points b) n s.cb

record Inv (n : ℕ) (s : Heap) : Type 0 where
  counted : (b : ℕ) → s.count b ≡ holders n s b
  once : (b : ℕ) → s.destroyed b ≡ (if ltb b s.made && (s.count b == 0) then 1 else 0)
  allocated : (h b : ℕ) → s.cb h ≡ some b → b < s.made

module _ {n : ℕ} {s : Heap} (inv : Inv n s) (small : n < 2 ^ 60) where
  few : (b : ℕ) → s.count b < 2 ^ 60
  few b = ground (arith, inv.counted b, tally-le (points b) n s.cb (λ o. ground arith))

  unmade : s.count s.made ≡ 0
  unmade = ground (
    arith,
    inv.counted s.made,
    tally-zero (points s.made) n s.cb (λ i. ground (arith, inv.allocated i s.made)),
  )

  make-Inv : (h : ℕ) → h < n → s.cb h ≡ none → Inv n (make s h)
  unfolding make
  make-Inv h lt e = record {
    counted = λ b.
        ground (arith, inv.counted b, unmade, tally-update (points b) n s.cb h (some s.made) lt);
    once = λ b. ground (arith, inv.once b, unmade);
    allocated = λ k b a. ground (arith, inv.allocated k b);
  }

  release-Inv : (h : ℕ) → h < n → (o : Option ℕ) → s.cb h ≡ o → Inv n (release s h)
  unfolding release
  release-Inv h lt none e = record {
    counted = λ c. ground (arith, inv.counted c);
    once = λ c. ground (arith, inv.once c);
    allocated = λ k c a. ground (arith, inv.allocated k c);
  }
  release-Inv h lt (some b) e = record {
    counted = λ c. ground (
      arith,
      inv.counted c,
      few c,
      tally-update (points c) n s.cb h none lt,
      weight-le-tally (points c) n s.cb h lt,
    );
    once = λ c. ground (
      arith,
      inv.once c,
      inv.once b,
      few c,
      inv.counted c,
      inv.allocated h b e,
      weight-le-tally (points b) n s.cb h lt,
      inv.counted b,
    );
    allocated = λ k c a. ground (arith, inv.allocated k c);
  }

  -- One more pointer to the block of `rhs`.
  share-Inv :
      (h rhs b : ℕ)
      → h < n
      → s.cb h ≡ none
      → s.cb rhs ≡ some b
      → rhs < n
      → Inv n
          (record s { cb = update s.cb h (some b); count = update s.count b (add64 (s.count b) 1) })
  share-Inv h rhs b lt e f in_range = record {
    counted =
        λ c. ground (arith, inv.counted c, few c, tally-update (points c) n s.cb h (some b) lt);
    once = λ c.
        ground
          (arith, inv.once c, few c, inv.counted b, weight-le-tally (points b) n s.cb rhs in_range);
    allocated = λ k c a. ground (arith, inv.allocated k c, inv.allocated rhs c);
  }

  empty-Inv : (h : ℕ) → h < n → s.cb h ≡ none → Inv n (record s { cb = update s.cb h none })
  empty-Inv h lt e = record {
    counted = λ c. ground (arith, inv.counted c, tally-update (points c) n s.cb h none lt);
    once = inv.once;
    allocated = λ k c a. ground (arith, inv.allocated k c);
  }

  swap-Inv : (h rhs : ℕ) → h < n → rhs < n → Inv n (swap s h rhs)
  unfolding swap
  swap-Inv h rhs lt lt' = record {
    counted = λ c. ground (
      arith,
      inv.counted c,
      tally-update (points c) n s.cb h (s.cb rhs) lt,
      tally-update (points c) n (update s.cb h (s.cb rhs)) rhs (s.cb h) lt',
    );
    once = inv.once;
    allocated = λ k c a. ground (arith, inv.allocated k c, inv.allocated h c, inv.allocated rhs c);
  }

  move-Inv :
      (h rhs : ℕ) → h < n → rhs < n → s.cb h ≡ none → h ≢ rhs → Inv n (move_construct s h rhs)
  unfolding move_construct
  move-Inv h rhs lt lt' e ne = record {
    counted = λ c. ground (
      arith,
      inv.counted c,
      tally-update (points c) n s.cb h (s.cb rhs) lt,
      tally-update (points c) n (update s.cb h (s.cb rhs)) rhs none lt',
    );
    once = inv.once;
    allocated = λ k c a. ground (arith, inv.allocated k c, inv.allocated h c, inv.allocated rhs c);
  }

  copy-Inv :
      (h rhs : ℕ)
      → h < n
      → rhs < n
      → s.cb h ≡ none
      → h ≢ rhs
      → (o : Option ℕ) → s.cb rhs ≡ o
      → Inv n (copy_construct s h rhs)
  unfolding copy_construct retain
  copy-Inv h rhs lt lt' e ne none f =
      let same : copy_construct s h rhs ≡ record s { cb = update s.cb h none } =
        ground (arith, f) in
      rw same (empty-Inv h lt e)
  copy-Inv h rhs lt lt' e ne (some b) f =
      let same : copy_construct s h rhs ≡ record s {
        cb = update s.cb h (some b);
        count = update s.count b (add64 (s.count b) 1);
      } =
        ground (arith, f) in
      rw same (share-Inv h rhs b lt e f lt')

  assign-Inv :
      (h rhs : ℕ)
      → h < n
      → rhs < n
      → s.cb h ≡ none
      → (o : Option ℕ) → s.cb rhs ≡ o
      → Inv n (assign_cb (retain s rhs) h rhs)
  unfolding retain
  assign-Inv h rhs lt lt' e none f =
      let same : assign_cb (retain s rhs) h rhs ≡ s = ground (arith, f) in rw same inv
  assign-Inv h rhs lt lt' e (some b) f =
      let same : assign_cb (retain s rhs) h rhs ≡ record s {
        cb = update s.cb h (some b);
        count = update s.count b (add64 (s.count b) 1);
      } =
        ground (arith, f) in
      rw same (share-Inv h rhs b lt e f lt')

  -- After a release the pointer is null.
  released : (h : ℕ) → (release s h).cb h ≡ none
  unfolding release
  released h = ground arith

module _ {n : ℕ} {s : Heap} (inv : Inv n s) (small : n < 2 ^ 60) where
  copy_assign-Inv : (h rhs : ℕ) → h < n → rhs < n → Inv n (copy_assign s h rhs)
  unfolding copy_assign
  copy_assign-Inv h rhs lt lt' = elim (Bool-cases (h == rhs)) [
    | inl self ↦ rw self inv
    | inr other ↦
        let t = release s h in
        rw other (
          assign-Inv (release-Inv inv small h lt (s.cb h) refl) small h rhs lt lt'
            (released inv small h) (t.cb rhs) refl)
  ]

  move_assign-Inv : (h rhs : ℕ) → h < n → rhs < n → Inv n (move_assign s h rhs)
  unfolding move_assign
  move_assign-Inv h rhs lt lt' = elim (Bool-cases (h == rhs)) [
    | inl self ↦ rw self inv
    | inr other ↦ rw other (
        move-Inv (release-Inv inv small h lt (s.cb h) refl) small h rhs lt lt'
          (released inv small h) (ground arith))
  ]

  Step-Inv : {t : Heap} → Step n s t → Inv n t
  Step-Inv (makes h lt e) = make-Inv inv small h lt e
  Step-Inv (releases h lt) = release-Inv inv small h lt (s.cb h) refl
  Step-Inv (copy_constructs h rhs lt lt' e ne) =
      copy-Inv inv small h rhs lt lt' e ne (s.cb rhs) refl
  Step-Inv (move_constructs h rhs lt lt' e ne) = move-Inv inv small h rhs lt lt' e ne
  Step-Inv (copy_assigns h rhs lt lt') = copy_assign-Inv h rhs lt lt'
  Step-Inv (move_assigns h rhs lt lt') = move_assign-Inv h rhs lt lt'
  Step-Inv (swaps h rhs lt lt') = swap-Inv inv small h rhs lt lt'

Reach-Inv : {n : ℕ} {s : Heap} → n < 2 ^ 60 → Reach n s → Inv n s
Reach-Inv {n = n} small initial = record {
  counted = λ b. ground (arith, tally-zero (points b) n (λ h. none) (λ i. refl));
  once = λ b. ground arith;
  allocated = λ h b a. ground arith;
}
Reach-Inv small (later r st) = Step-Inv (Reach-Inv small r) small st

-- No leak, no use after free, no double free: whatever fewer than 2 ^ 60 pointers did, the count of a
-- block is the number of the pointers to it, and a block that was made has been destroyed exactly
-- once if no pointer is left, and else not at all.
pub counted_pointers :
    {n : ℕ} {s : Heap}
    → n < 2 ^ 60
    → Reach n s
    → (b : ℕ)
    → (s.count b ≡ holders n s b)
      × (s.destroyed b ≡ (if ltb b s.made && (holders n s b == 0) then 1 else 0))
counted_pointers small r b =
    let inv = Reach-Inv small r in ground (arith, inv.counted b, inv.once b)

-- The pointers that share what a pointer points to.
abbrev pub sharers : ℕ → Heap → Option ℕ → ℕ
sharers n s none = 0
sharers n s (some b) = holders n s b

-- `use_count` of a pointer, in whatever state fewer than 2 ^ 60 pointers reach, is the number of the
-- pointers that share its block, itself included, and 0 for a null pointer.
pub use_count-sharers :
    {n : ℕ} {s : Heap} → n < 2 ^ 60 → Reach n s → (h : ℕ) → use_count s h ≡ sharers n s (s.cb h)
unfolding use_count
use_count-sharers {n = n} {s = s} small r h =
    let inv = Reach-Inv small r in
    elim (s.cb h) as (λ o. elim o as (λ k. ℕ) [ none ↦ 0 | some b ↦ s.count b ] ≡ sharers n s o) [
      | none ↦ refl
      | some b ↦ inv.counted b
    ]

-- An assignment lets go of the old block and shares the new one: after `h = rhs` for two different
-- pointers both point to the block of `rhs`, or are null if it is, and no other pointer has changed.
pub copy_assign_lem :
    (s : Heap) (h rhs : ℕ)
    → h ≢ rhs
    → ((copy_assign s h rhs).cb h ≡ s.cb rhs)
      × ((copy_assign s h rhs).cb rhs ≡ s.cb rhs)
      × ((k : ℕ) → h ≢ k → (copy_assign s h rhs).cb k ≡ s.cb k)
unfolding copy_assign release retain
copy_assign_lem s h rhs ne =
    (ground (arith, ne), ground (arith, ne), λ k other. ground (arith, ne, other))
