-- ===== src/StaticStack/Laws.antt =====
-- `static_stack` against the abstract stack: a list, the top first, of at most `capacity` objects.
use native.Mathlib.Nat.{mod-lt}
use flux_foundry.Prelude.{
  ℕ, ◌+◌, ◌%◌, ◌<◌, ◌≡◌, ◌≢◌, refl, Bool, true, false, Option, none, some, List, [], ◌∷◌, length,
  arith, ◌∙◌, ◌==◌, if◌then◌else◌, ltb,
}
use flux_foundry.StaticStack.{
  Node, Stack, seq_range, empty_tag, make_seq, get_seq, get_offset, set_next, set_satellite, push,
  pop,
}
use flux_foundry.StaticStack.Rep.{
  Sized, Holding, Without, Rep, Chain-update, Holding-update, get_offset-make_seq, get_seq-make_seq,
  get_seq-lt, not_empty, Without-of_Apart, Apart-tail, Apart-cons,
}

-- The tag that `pop_from_list` returns for a head `t` at the node `o`.
abbrev taken : ℕ → ℕ → ℕ
taken capacity t = make_seq capacity (get_seq capacity t) (get_offset capacity t)

record Taken (capacity t o : ℕ) : Type 0 where
  at : get_offset capacity (taken capacity t) ≡ o
  sequence : get_seq capacity (taken capacity t) ≡ get_seq capacity t
  present : (t == empty_tag capacity) ≡ false
  returned : (taken capacity t == empty_tag capacity) ≡ false

taken_lem :
    (capacity t o : ℕ)
    → Sized capacity
    → get_offset capacity t ≡ o
    → o < capacity
    → Taken capacity t o
taken_lem capacity t o sized e h =
    let inside : get_offset capacity t < capacity = rw e h in
    let at : get_offset capacity (taken capacity t) ≡ o =
      get_offset-make_seq capacity (get_seq capacity t) (get_offset capacity t) sized inside
        (get_seq-lt capacity t sized)
      ∙ e in
    record {
      at = at;
      sequence =
          get_seq-make_seq capacity (get_seq capacity t) (get_offset capacity t) sized inside
            (get_seq-lt capacity t sized);
      present = not_empty capacity t o sized e h;
      returned = not_empty capacity (taken capacity t) o sized at h;
    }

==_self : (o : ℕ) → (o == o) ≡ true
==_self o = ground arith

module _ {A : Type 0} where
  abbrev pub abstract_push : ℕ → A → List A → List A × Bool
  abstract_push capacity x xs = if ltb (length xs) capacity then (x ∷ xs, true) else (xs, false)

  abbrev pub abstract_pop : List A → List A × Option A
  abstract_pop [] = ([], none)
  abstract_pop (x ∷ xs) = (xs, some x)

  -- The stack holds `xs` in some of its nodes, and all the others are free.
  abbrev pub Holds : ℕ → Stack A → List A → Type 0
  Holds capacity s xs = (used : List ℕ) × (spare : List ℕ) × Rep capacity s used spare xs

  length-objects :
      (capacity : ℕ) (nodes : ℕ → Node A) (os : List ℕ) (xs : List A)
      → Holding capacity nodes os xs
      → length os ≡ length xs
  length-objects capacity nodes [] [] h = refl
  length-objects capacity nodes [] (x ∷ xs) h = absurd h
  length-objects capacity nodes (o ∷ os) [] h = absurd h
  length-objects capacity nodes (o ∷ os) (x ∷ xs) h =
      omega (arith, length-objects capacity nodes os xs h.1)

  module _ {capacity : ℕ} (s : Stack A) (sized : Sized capacity) where
    -- The new tag of a pushed node `o`: the next sequence number.
    next_tag : ℕ → ℕ
    next_tag o = make_seq capacity ((get_seq capacity s.free + 1) % seq_range capacity) o

    next_tag-at : (o : ℕ) → o < capacity → get_offset capacity (next_tag o) ≡ o
    unfolding next_tag
    next_tag-at o h =
        get_offset-make_seq capacity _ o sized h (mod-lt _ (grind (arith, sized.splits)))

    pushed : A → ℕ → Stack A
    pushed x o = record {
      head = next_tag o;
      free = (s.nodes o).next;
      nodes = set_next capacity (set_satellite capacity s.nodes o (some x)) o s.head;
    }

    push_full :
        (x : A) (used : List ℕ) (xs : List A)
        → Rep capacity s used [] xs
        → push capacity s x ≡ (s, false)
    unfolding push
    push_full x used xs rep = ground (arith, rep.rest)

    push_eq :
        (x : A) (o : ℕ)
        → get_offset capacity s.free ≡ o
        → o < capacity
        → push capacity s x ≡ (pushed x o, true)
    unfolding push pushed next_tag
    push_eq x o e h =
        let t = taken_lem capacity s.free o sized e h in
        let back : get_offset capacity
              (make_seq capacity ((get_seq capacity s.free + 1) % seq_range capacity) o)
            ≡ o =
          next_tag-at o h in
        rw (t.present, t.returned, t.at, t.sequence) (rw (back, e, ==_self o))

    push_Rep :
        (x : A) (used spare : List ℕ) (o : ℕ) (xs : List A)
        → Rep capacity s used (o ∷ spare) xs
        → Rep capacity (pushed x o) (o ∷ used) spare (x ∷ xs)
    unfolding pushed
    push_Rep x used spare o xs rep = record {
      top = (
        next_tag-at o rep.rest.1,
        rep.rest.1,
        rw here (Chain-update capacity s.nodes nodes' o other s.head used clear rep.top),
      );
      rest = Chain-update capacity s.nodes nodes' o other _ spare rep.spare_apart.0 rep.rest.2;
      objects =
          (rw here refl, Holding-update capacity s.nodes nodes' o other used xs clear rep.objects);
      apart = (clear, rep.spare_apart.0, Apart-tail o used spare rep.apart);
      spare_apart = rep.spare_apart.2;
      counted = omega (arith, rep.counted);
    }
      where
        clear : Without o used
        clear = Without-of_Apart o used spare rep.apart

        nodes' : ℕ → Node A
        nodes' = (pushed x o).nodes

        here : nodes' o ≡ record { satellite = some x; next = s.head }
        here = ground arith

        other : (p : ℕ) → o ≢ p → nodes' p ≡ s.nodes p
        other p ne = ground arith

    popped : ℕ → Stack A
    popped o = record {
      head = (s.nodes o).next;
      free = make_seq capacity (get_seq capacity s.head) o;
      nodes = set_next capacity (set_satellite capacity s.nodes o none) o s.free;
    }

    pop_empty : (spare : List ℕ) → Rep capacity s [] spare [] → pop capacity s ≡ (s, none)
    unfolding pop
    pop_empty spare rep = ground (arith, rep.top)

    pop_eq :
        (o : ℕ)
        → get_offset capacity s.head ≡ o
        → o < capacity
        → pop capacity s ≡ (popped o, (s.nodes o).satellite)
    unfolding pop popped
    pop_eq o e h =
        let t = taken_lem capacity s.head o sized e h in
        let back : get_offset capacity (make_seq capacity (get_seq capacity s.head) o) ≡ o =
          get_offset-make_seq capacity (get_seq capacity s.head) o sized h
            (get_seq-lt capacity s.head sized) in
        rw (t.present, t.returned, t.at, t.sequence) (rw (back, e, ==_self o))

    pop_Rep :
        (x : A) (used spare : List ℕ) (o : ℕ) (xs : List A)
        → Rep capacity s (o ∷ used) spare (x ∷ xs)
        → Rep capacity (popped o) used (o ∷ spare) xs
    unfolding popped
    pop_Rep x used spare o xs rep = record {
      top = Chain-update capacity s.nodes nodes' o other _ used rep.apart.0 rep.top.2;
      rest = (
        get_offset-make_seq capacity (get_seq capacity s.head) o sized rep.top.1
            (get_seq-lt capacity s.head sized),
        rep.top.1,
        rw here (Chain-update capacity s.nodes nodes' o other s.free spare rep.apart.1 rep.rest),
      );
      objects = Holding-update capacity s.nodes nodes' o other used xs rep.apart.0 rep.objects.1;
      apart = Apart-cons o used spare rep.apart.0 rep.apart.2;
      spare_apart = (rep.apart.1, tt, rep.spare_apart);
      counted = omega (arith, rep.counted);
    }
      where
        nodes' : ℕ → Node A
        nodes' = (popped o).nodes

        here : nodes' o ≡ record { satellite = none; next = s.free }
        here = ground arith

        other : (p : ℕ) → o ≢ p → nodes' p ≡ s.nodes p
        other p ne = ground arith

  -- `push` and `emplace` do what the abstract stack does: while fewer than `capacity` objects are
  -- held they put the object on top and return true, and else they return false and change nothing.
  pub push_refines :
      {capacity : ℕ} (s : Stack A) (xs : List A) (x : A)
      → Sized capacity
      → Holds capacity s xs
      → let (ys, done) = abstract_push capacity x xs in
        ((push capacity s x).1 ≡ done) × Holds capacity (push capacity s x).0 ys
  push_refines {capacity} s xs x sized (used, [], rep) =
      let size = length-objects capacity s.nodes used xs rep.objects in
      let full : ltb (length xs) capacity ≡ false = ground (arith, size, rep.counted) in
      rw (full, push_full s sized x used xs rep) (refl, (used, [], rep))
  push_refines {capacity} s xs x sized (used, o ∷ spare, rep) =
      let size = length-objects capacity s.nodes used xs rep.objects in
      let less : ltb (length xs) capacity ≡ true = ground (arith, size, rep.counted) in
      rw (less, push_eq s sized x o rep.rest.0 rep.rest.1)
        (refl, (o ∷ used, spare, push_Rep s sized x used spare o xs rep))

  -- `pop` returns and removes the top object, and returns nothing and changes nothing when there is
  -- none.
  pub pop_refines :
      {capacity : ℕ} (s : Stack A) (xs : List A)
      → Sized capacity
      → Holds capacity s xs
      → let (ys, res) = abstract_pop xs in
        ((pop capacity s).1 ≡ res) × Holds capacity (pop capacity s).0 ys
  pop_refines s [] sized ([], spare, rep) =
      rw (pop_empty s sized spare rep) (refl, ([], spare, rep))
  pop_refines s [] sized (o ∷ used, spare, rep) = absurd rep.objects
  pop_refines s (x ∷ xs) sized ([], spare, rep) = absurd rep.objects
  pop_refines s (x ∷ xs) sized (o ∷ used, spare, rep) =
      rw (pop_eq s sized o rep.top.0 rep.top.1)
        (rep.objects.0, (used, o ∷ spare, pop_Rep s sized x used spare o xs rep))
