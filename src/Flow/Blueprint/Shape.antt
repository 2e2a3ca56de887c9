-- ===== src/Flow/Blueprint/Shape.antt =====
-- The shapes of blueprint that `operator|` of flow/flow_blueprint.h can build.
use flux_foundry.Prelude.{
  ℕ, ◌+◌, ◌≤◌, ◌≡◌, inl, inr, Bool, true, false, some, List, [], ◌∷◌, ◌==◌, Bool-cases,
  Option-cases, arith,
}
use flux_foundry.Flow.Blueprint.{
  Result, Dispatcher, Node, calc, via, async, end, max_zip_n, zip_callables, append, append_all,
}

module _ {V E : Type 0} where
  -- How many callables a calc node holds.
  abbrev pub IsBounded : Node V E → Type 0
  IsBounded (calc n f) = (1 ≤ n) × (n ≤ max_zip_n)
  IsBounded (via d) = Unit {0}
  IsBounded (async d a) = Unit {0}
  IsBounded (end f) = Unit {0}

  abbrev pub AllBounded : List (Node V E) → Type 0
  AllBounded [] = Unit {0}
  AllBounded (b ∷ bs) = IsBounded b × AllBounded bs

  -- Which node may stand on an older one: a calc node on a full one, no `via` on a `via` or on an
  -- awaitable, and nothing on the end.
  abbrev pub follows : Node V E → Node V E → Bool
  follows (calc m g) (calc n f) = n == max_zip_n
  follows (calc m g) (via d) = true
  follows (calc m g) (async d a) = true
  follows (calc m g) (end f) = false
  follows (via d) (calc n f) = true
  follows (via d) (via d') = false
  follows (via d) (async d' a) = false
  follows (via d) (end f) = false
  follows (async d a) (calc n f) = true
  follows (async d a) (via d') = true
  follows (async d a) (async d' a') = true
  follows (async d a) (end f) = false
  follows (end g) (calc n f) = true
  follows (end g) (via d) = true
  follows (end g) (async d a) = true
  follows (end g) (end f) = false

  abbrev pub Stands : Node V E → List (Node V E) → Type 0
  Stands b [] = Unit {0}
  Stands b (older ∷ others) = follows b older ≡ true

  abbrev pub IsShaped : List (Node V E) → Type 0
  IsShaped [] = Unit {0}
  IsShaped (b ∷ others) = IsBounded b × (Stands b others × IsShaped others)

  -- The newest node may change its callable or its dispatcher where it stands.
  Stands-resized :
      (n m : ℕ) (f g : Result V E → Result V E) (others : List (Node V E))
      → Stands (calc n f) others
      → Stands (calc m g) others
  Stands-resized n m f g [] s = s
  Stands-resized n m f g (calc k h ∷ others) s = s
  Stands-resized n m f g (via d ∷ others) s = s
  Stands-resized n m f g (async d a ∷ others) s = s
  Stands-resized n m f g (end h ∷ others) s = s

  Stands-redirected :
      (p q : Dispatcher) (others : List (Node V E)) → Stands (via p) others → Stands (via q) others
  Stands-redirected p q [] s = s
  Stands-redirected p q (calc k h ∷ others) s = s
  Stands-redirected p q (via d ∷ others) s = s
  Stands-redirected p q (async d a ∷ others) s = s
  Stands-redirected p q (end h ∷ others) s = s

  append-IsShaped :
      (bp : List (Node V E)) (b : Node V E) (bp' : List (Node V E))
      → IsBounded b
      → IsShaped bp
      → append bp b ≡ some bp'
      → IsShaped bp'
  unfolding append
  append-IsShaped [] b bp' k s e = ground arith
  append-IsShaped (end f ∷ others) b bp' k s e = ground arith
  append-IsShaped (calc n f ∷ others) (calc m g) bp' k s e = elim (Bool-cases (m == 1)) [
    | inl m1 ↦ elim (Bool-cases (n == max_zip_n)) [
      | inl n1 ↦ ground (arith, e, m1, n1)
      | inr n0 ↦ ground (arith, e, m1, n0, Stands-resized n (n + 1) f (zip_callables f g) others)
    ]
    | inr m0 ↦ ground (arith, e, m0)
  ]
  append-IsShaped (calc n f ∷ others) (via q) bp' k s e = ground arith
  append-IsShaped (calc n f ∷ others) (async d a) bp' k s e = ground arith
  append-IsShaped (calc n f ∷ others) (end g) bp' k s e = ground arith
  append-IsShaped (via p ∷ others) (via q) bp' k s e = ground (arith, Stands-redirected p q others)
  append-IsShaped (via p ∷ others) (calc m g) bp' k s e = elim (Bool-cases (m == 1)) [
    | inl m1 ↦ ground (arith, e, m1)
    | inr m0 ↦ ground (arith, e, m0)
  ]
  append-IsShaped (via p ∷ others) (async d a) bp' k s e = ground arith
  append-IsShaped (via p ∷ others) (end g) bp' k s e = ground arith
  append-IsShaped (async d a ∷ others) (via q) bp' k s e = ground arith
  append-IsShaped (async d a ∷ others) (calc m g) bp' k s e = ground arith
  append-IsShaped (async d a ∷ others) (async d' a') bp' k s e = ground arith
  append-IsShaped (async d a ∷ others) (end g) bp' k s e = ground arith

  -- What `operator|` builds from a blueprint of the right shape has it: no calc node holds more
  -- callables than `MAX_ZIP_N`, one that stands on another stands on a full one, no `via` stands on
  -- a `via` or an awaitable, and nothing on the end.
  pub append_all-IsShaped :
      (bp bs bp' : List (Node V E))
      → AllBounded bs
      → IsShaped bp
      → append_all bp bs ≡ some bp'
      → IsShaped bp'
  unfolding append_all
  append_all-IsShaped bp [] bp' ks s e = ground arith
  append_all-IsShaped bp (b ∷ bs) bp' (kb, ks) s e = elim (Option-cases (append bp b)) [
    | inl same ↦ ground (arith, e, same)
    | inr (m, same) ↦
        append_all-IsShaped m bs bp' ks (append-IsShaped bp b m kb s same) (ground (arith, e, same))
  ]
