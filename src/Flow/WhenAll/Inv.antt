-- ===== src/Flow/WhenAll/Inv.antt =====
-- The invariant of a `when_all`: the count in `fired` is the number of the branches at work, and the
-- right to resume passes to exactly one thread.
use flux_foundry.Prelude.{
  ℕ, ◌+◌, ◌/◌, ◌%◌, ◌≤◌, ◌<◌, Bool, true, false, ◌&&◌, ◌==◌, if◌then◌else◌, List, [], ◌∷◌, ◌≡◌, ◌≢◌,
  ◌⊎◌, length, tally,
}
use flux_foundry.Flow.WhenAll.{
  Outcome, all_values, any_failed, Branch, unlaunched, canceling, noting, counting, last,
  delivering, finished, Submitter, created, launching, starting, dropping, withdrawing, sealing,
  checking, resuming, returned,
}
use flux_foundry.Flow.WhenAll.System.{System}

-- Launched and not counted down yet.
abbrev pub at_work : Branch → ℕ
at_work unlaunched = 0
at_work last = 0
at_work (delivering o) = 0
at_work finished = 0
at_work _ = 1

-- Entitled to resume the awaitable.
abbrev pub entitled : Branch → ℕ
entitled last = 1
entitled (delivering o) = 1
entitled _ = 0

abbrev pub is_sealed : Submitter → Bool
is_sealed checking = true
is_sealed (resuming o) = true
is_sealed (returned ok) = ok
is_sealed _ = false

-- The submitter's own part in the count, and its entitlement.
abbrev pub holds : Submitter → ℕ
holds (starting k) = 1
holds (dropping k) = 1
holds withdrawing = 1
holds _ = 0

abbrev pub entitled_submitter : Submitter → ℕ
entitled_submitter checking = 1
entitled_submitter (resuming o) = 1
entitled_submitter _ = 0

abbrev pub Flags : Submitter → ℕ → Type 0
Flags checking fired = fired % 4 ≡ 2
Flags (resuming o) fired = fired % 4 ≡ 2
Flags (returned true) fired = fired % 4 ≡ 2
Flags (returned false) fired = fired % 4 ≤ 1
Flags _ fired = fired % 4 ≡ 0

-- The branches from here on are not launched, and those below are.
abbrev pub frontier : ℕ → Submitter → ℕ
frontier n created = 0
frontier n (launching k) = k
frontier n (starting k) = k
frontier n _ = n

abbrev pub launched : ℕ → Submitter → ℕ
launched n (launching k) = k
launched n (starting k) = k
launched n sealing = n
launched n checking = n
launched n (resuming o) = n
launched n (returned true) = n
launched n _ = 0

abbrev pub Bounded : ℕ → Submitter → Type 0
Bounded n (launching k) = k ≤ n
Bounded n (starting k) = k < n
Bounded n _ = Unit {0}

-- Its error, if it has one, is in `failed`.
abbrev pub has_noted : Branch → Bool
has_noted counting = true
has_noted last = true
has_noted (delivering o) = true
has_noted finished = true
has_noted _ = false

-- `emplace` has stored the result.
abbrev pub Stored : Branch → (ℕ → Bool) → ℕ → Type 0
Stored canceling errors i = errors i ≡ true
Stored noting errors i = errors i ≡ true
Stored _ errors i = Unit {0}

abbrev pub Agrees : ℕ → ℕ → Outcome → Type 0
Agrees n failed all_values = failed ≡ n
Agrees n failed (any_failed i) = (failed ≡ i) × (i < n)

abbrev pub BranchAgrees : ℕ → ℕ → Branch → Type 0
BranchAgrees n failed (delivering o) = Agrees n failed o
BranchAgrees n failed _ = Unit {0}

abbrev pub SubmitterAgrees : ℕ → ℕ → Submitter → Type 0
SubmitterAgrees n failed (resuming o) = Agrees n failed o
SubmitterAgrees n failed _ = Unit {0}

abbrev pub AllAgree : ℕ → ℕ → List Outcome → Type 0
AllAgree n failed [] = Unit {0}
AllAgree n failed (o ∷ os) = Agrees n failed o × AllAgree n failed os

-- The first failure: none yet, or a branch that holds an error and has passed its exchange.
abbrev pub First : ℕ → System → Type 0
First n s =
    (s.state.failed ≡ n)
    ⊎ (s.state.failed < n)
      × (s.state.data_errors s.state.failed ≡ true)
      × (has_noted (s.branch s.state.failed) ≡ true)

pub record Inv (n : ℕ) (s : System) : Type 0 where
  pub count : s.state.fired / 4 ≡ tally at_work n s.branch + holds s.submitter
  pub flags : Flags s.submitter s.state.fired
  pub bounded : Bounded n s.submitter
  pub ahead : (i : ℕ) → frontier n s.submitter ≤ i → s.branch i ≡ unlaunched
  pub behind : (i : ℕ) → i < launched n s.submitter → s.branch i ≢ unlaunched
  pub one_right :
      length s.resumed + tally entitled n s.branch + entitled_submitter s.submitter
      ≡ (if is_sealed s.submitter && (s.state.fired / 4 == 0) then 1 else 0)
  pub noted :
      (i : ℕ) → has_noted (s.branch i) ≡ true → s.state.data_errors i ≡ true → s.state.failed ≢ n
  pub stored : (i : ℕ) → Stored (s.branch i) s.state.data_errors i
  pub first : First n s
  pub branch_agrees : (i : ℕ) → BranchAgrees n s.state.failed (s.branch i)
  pub submitter_agrees : SubmitterAgrees n s.state.failed s.submitter
  pub resumed_agree : AllAgree n s.state.failed s.resumed
