-- ===== src/Flow/Blueprint.antt =====
-- The nodes of flow/flow_node.h and how flow/flow_blueprint.h puts them together: `operator|` stores
-- the newest node first, and merges it into the one before where it can. One type `V` of values and
-- one type `E` of errors, which holds the exceptions, stand for the types of all nodes; the user's
-- callables come from outside, and an overload that is deleted is `none`.
pub mod Fusion
pub mod Shape
mod Tests
use flux_foundry.Prelude.{
  ℕ, suc, ◌+◌, Bool, true, false, Option, none, some, List, [], ◌∷◌, ◌==◌, ltb, if◌then◌else◌,
}

-- `result_t<T, E>`
pub data Result (V E : Type 0) : Type 0 where
  value : V → Result V E
  error : E → Result V E

-- What a call of a user's callable does.
pub data Call (V E : Type 0) : Type 0 where
  returns : Result V E → Call V E
  throws : (exception : E) → Call V E

module _ {V E : Type 0} where
  -- `try { … } catch (...) { return F_O(error_tag, std::current_exception()); }`
  abbrev pub guarded : Call V E → Result V E
  guarded (returns r) = r
  guarded (throws e) = error e

  -- The wrappers that the `make` functions of the nodes store.
  unfoldable pub transform : (V → V) → Result V E → Result V E
  transform f (value v) = value (f v)
  transform f (error e) = error e

  unfoldable pub then_call : (Result V E → Call V E) → Result V E → Result V E
  then_call f (value v) = guarded (f (value v))
  then_call f (error e) = error e

  unfoldable pub on_error : (Result V E → Call V E) → Result V E → Result V E
  on_error f (value v) = value v
  on_error f (error e) = guarded (f (error e))

  -- `caught` tells whether the stored exception is of the type `Exception`.
  unfoldable pub catch_exception : (E → Bool) → (E → Call V E) → Result V E → Result V E
  catch_exception caught f (value v) = value v
  catch_exception caught f (error e) = if caught e then guarded (f e) else error e

  unfoldable pub end_call : (Result V E → Call V E) → Result V E → Result V E
  end_call f r = guarded (f r)

-- `dispatch_wrapper_t<Executor>`, with the test that `is_inline_dispatcher` makes of its type.
pub record Dispatcher : Type 0 where
  pub executor : ℕ
  pub is_inline : Bool

-- The nodes by their tags; `n` is the number of callables that are zipped into a calc node.
pub data Node (V E : Type 0) : Type 0 where
  calc : (n : ℕ) → (f : Result V E → Result V E) → Node V E
  via : Dispatcher → Node V E
  async : Dispatcher → (adaptor : Result V E → Result V E) → Node V E
  end : (f : Result V E → Result V E) → Node V E

-- `MAX_ZIP_N` of flow/flow_def.h, for gcc and clang.
abbrev pub max_zip_n : ℕ
max_zip_n = 2

module _ {V E : Type 0} where
  -- `zipped_callable`
  abbrev pub zip_callables :
      (Result V E → Result V E) → (Result V E → Result V E) → Result V E → Result V E
  zip_callables f g x = g (f x)

  -- `make_blueprint`: a calc node with the identity.
  abbrev pub make_blueprint : List (Node V E)
  make_blueprint = calc 1 (λ x. x) ∷ []

  -- `operator|` of a blueprint, its newest node first, with a node. Two calc nodes that were merged
  -- before fit after an awaitable only.
  unfoldable pub append : List (Node V E) → Node V E → Option (List (Node V E))
  append [] b = none
  append (end f ∷ others) b = none
  append (calc n f ∷ others) (calc m g) =
      if m == 1
      then if n == max_zip_n
        then some (calc m g ∷ calc n f ∷ others)
        else some (calc (n + 1) (zip_callables f g) ∷ others)
      else none
  append (calc n f ∷ others) (via q) = some (via q ∷ calc n f ∷ others)
  append (calc n f ∷ others) (async d a) = some (async d a ∷ calc n f ∷ others)
  append (calc n f ∷ others) (end g) = some (end g ∷ calc n f ∷ others)
  append (via p ∷ others) (via q) = some (via q ∷ others)
  append (via p ∷ others) (calc m g) = if m == 1 then some (calc m g ∷ via p ∷ others) else none
  append (via p ∷ others) (async d a) = some (async d a ∷ via p ∷ others)
  append (via p ∷ others) (end g) = some (end g ∷ via p ∷ others)
  append (async d a ∷ others) (via q) = none
  append (async d a ∷ others) (calc m g) = some (calc m g ∷ async d a ∷ others)
  append (async d a ∷ others) (async e b) = some (async e b ∷ async d a ∷ others)
  append (async d a ∷ others) (end g) = some (end g ∷ async d a ∷ others)

  -- `bp | n1 | n2 | …`
  unfoldable pub append_all : List (Node V E) → List (Node V E) → Option (List (Node V E))
  unfolding append
  append_all bp [] = some bp
  append_all bp (b ∷ bs) = elim (append bp b) [ none ↦ none | some bp' ↦ append_all bp' bs ]
