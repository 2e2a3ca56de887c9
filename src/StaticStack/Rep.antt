-- ===== src/StaticStack/Rep.antt =====
-- What the two lists of a `static_stack` hold.
use native.Mathlib.Nat.{
  mod-lt, mul-add-mod_self_right, mod-eq_of_lt, mul-add-div_right, div-eq_of_lt, add-zero,
}
use flux_foundry.Prelude.{
  ℕ, ◌+◌, ◌*◌, ◌^◌, ◌<◌, ◌≡◌, ◌≢◌, false, some, List, [], ◌∷◌, length, arith, ◌==◌, ◌∙◌, sym,
}
use flux_foundry.StaticStack.{
  Node, Stack, range, seq_range, empty_tag, make_seq, get_seq, get_offset,
}

-- What the bit layout of a tag gives: an index fits beside the sequence number.
pub record Sized (capacity : ℕ) : Type 0 where
  pub fits : capacity < range capacity
  pub splits : range capacity * seq_range capacity ≡ 2 ^ 64

module _ {A : Type 0} (capacity : ℕ) where
  -- The tags from `t` on lead through the nodes `os`, and end in the empty tag.
  abbrev pub Chain : (ℕ → Node A) → ℕ → List ℕ → Type 0
  Chain nodes t [] = t ≡ empty_tag capacity
  Chain nodes t (o ∷ os) =
      (get_offset capacity t ≡ o) × (o < capacity) × Chain nodes (nodes o).next os

  -- The nodes `os` hold the objects `xs`.
  abbrev pub Holding : (ℕ → Node A) → List ℕ → List A → Type 0
  Holding nodes [] [] = Unit {0}
  Holding nodes [] (x ∷ xs) = ⊥
  Holding nodes (o ∷ os) [] = ⊥
  Holding nodes (o ∷ os) (x ∷ xs) = ((nodes o).satellite ≡ some x) × Holding nodes os xs

abbrev pub Without : ℕ → List ℕ → Type 0
Without o [] = Unit {0}
Without o (p ∷ ps) = (o ≢ p) × Without o ps

abbrev pub Apart : List ℕ → List ℕ → Type 0
Apart [] ps = Unit {0}
Apart (o ∷ os) ps = Without o os × Without o ps × Apart os ps

-- The stack holds `xs`, the top first, in the nodes `used`, and `spare` are its free nodes.
pub record Rep {A : Type 0} (capacity : ℕ) (s : Stack A) (used spare : List ℕ) (xs : List A)
    : Type 0 where
  pub top : Chain capacity s.nodes s.head used
  pub rest : Chain capacity s.nodes s.free spare
  pub objects : Holding capacity s.nodes used xs
  pub apart : Apart used spare
  pub spare_apart : Apart spare []
  pub counted : length used + length spare ≡ capacity

module _ {A : Type 0} (capacity : ℕ) where
  -- A node outside a list may change.
  pub Chain-update :
      (nodes nodes' : ℕ → Node A) (o : ℕ)
      → ((p : ℕ) → o ≢ p → nodes' p ≡ nodes p)
      → (t : ℕ) (os : List ℕ) → Without o os
      → Chain capacity nodes t os
      → Chain capacity nodes' t os
  Chain-update nodes nodes' o same t [] w c = c
  Chain-update nodes nodes' o same t (p ∷ os) w c =
      (c.0, c.1, rw (same p w.0) (Chain-update nodes nodes' o same (nodes p).next os w.1 c.2))

  pub Holding-update :
      (nodes nodes' : ℕ → Node A) (o : ℕ)
      → ((p : ℕ) → o ≢ p → nodes' p ≡ nodes p)
      → (os : List ℕ) (xs : List A) → Without o os
      → Holding capacity nodes os xs
      → Holding capacity nodes' os xs
  Holding-update nodes nodes' o same [] [] w h = tt
  Holding-update nodes nodes' o same [] (x ∷ xs) w h = h
  Holding-update nodes nodes' o same (p ∷ os) [] w h = h
  Holding-update nodes nodes' o same (p ∷ os) (x ∷ xs) w h =
      (rw (same p w.0) h.0, Holding-update nodes nodes' o same os xs w.1 h.1)

-- No bit of a sequence number is lost in a tag.
make_seq_exact :
    (capacity seq o : ℕ)
    → Sized capacity
    → seq < seq_range capacity
    → make_seq capacity seq o ≡ seq * range capacity + o
unfolding make_seq
make_seq_exact capacity seq o sized lt = grind arith

-- The tag that is made from an index and a sequence number gives both back.
pub get_offset-make_seq :
    (capacity seq o : ℕ)
    → Sized capacity
    → o < capacity
    → seq < seq_range capacity
    → get_offset capacity (make_seq capacity seq o) ≡ o
unfolding get_offset
get_offset-make_seq capacity seq o sized h lt =
    rw (make_seq_exact capacity seq o sized lt)
      (mul-add-mod_self_right seq (range capacity) o ∙ mod-eq_of_lt (omega (arith, sized.fits)))

pub get_seq-make_seq :
    (capacity seq o : ℕ)
    → Sized capacity
    → o < capacity
    → seq < seq_range capacity
    → get_seq capacity (make_seq capacity seq o) ≡ seq
unfolding get_seq
get_seq-make_seq capacity seq o sized h lt =
    rw
      (
        make_seq_exact capacity seq o sized lt,
        mul-add-div_right {m = range capacity} (omega (arith, sized.fits)) seq o,
        div-eq_of_lt {n = o} {m = range capacity} (omega (arith, sized.fits)),
        add-zero,
      )
      (mod-eq_of_lt lt)

pub get_seq-lt : (capacity tag : ℕ) → Sized capacity → get_seq capacity tag < seq_range capacity
unfolding get_seq
get_seq-lt capacity tag sized = mod-lt _ (grind arith)

-- The tag of a node is not the empty one.
pub not_empty :
    (capacity t o : ℕ)
    → Sized capacity
    → get_offset capacity t ≡ o
    → o < capacity
    → (t == empty_tag capacity) ≡ false
unfolding get_offset
not_empty capacity t o sized e h = ground (arith, mod-eq_of_lt sized.fits)

-- A list that is apart from another one, with a node moved between them.
pub Without-of_Apart : (o : ℕ) (used spare : List ℕ) → Apart used (o ∷ spare) → Without o used
Without-of_Apart o [] spare a = tt
Without-of_Apart o (p ∷ ps) spare a = (λ e. a.1.0 (sym e), Without-of_Apart o ps spare a.2)

pub Apart-tail : (o : ℕ) (used spare : List ℕ) → Apart used (o ∷ spare) → Apart used spare
Apart-tail o [] spare a = tt
Apart-tail o (p ∷ ps) spare a = (a.0, a.1.1, Apart-tail o ps spare a.2)

pub Apart-cons :
    (o : ℕ) (used spare : List ℕ) → Without o used → Apart used spare → Apart used (o ∷ spare)
Apart-cons o [] spare w a = tt
Apart-cons o (p ∷ ps) spare w a = (a.0, (λ e. w.0 (sym e), a.1), Apart-cons o ps spare w.1 a.2)
