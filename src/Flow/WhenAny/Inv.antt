-- ===== src/Flow/WhenAny/Inv.antt =====
-- The invariant of a `when_any`: one winner at most resumes with its value, and the right to report
-- that all failed passes to exactly one thread as long as nobody has won.
use flux_foundry.Prelude.{
  ℕ, ◌+◌, ◌/◌, ◌%◌, ◌≤◌, ◌<◌, Bool, true, false, ◌&&◌, ◌==◌, if◌then◌else◌, List, [], ◌∷◌, ◌≡◌, ◌≢◌,
  ◌⊎◌, tally,
}
use flux_foundry.Flow.WhenAny.{
  Outcome, value_from, all_failed, Branch, unlaunched, running, emplacing, racing, winning,
  canceling, counting, last, delivering, finished, Submitter, created, launching, starting,
  withdrawing, judging, closing, checking, resuming, returned,
}
use flux_foundry.Flow.WhenAny.System.{System}

-- Launched and not counted down yet.
abbrev pub at_work : Branch → ℕ
at_work unlaunched = 0
at_work last = 0
at_work delivering = 0
at_work finished = 0
at_work _ = 1

abbrev pub is_launched : Branch → ℕ
is_launched unlaunched = 0
is_launched _ = 1

-- About to resume with its value.
abbrev pub wins : Branch → ℕ
wins winning = 1
wins _ = 0

-- Entitled to report that all failed, and about to.
abbrev pub entitled : Branch → ℕ
entitled last = 1
entitled delivering = 1
entitled _ = 0

abbrev pub reports : Branch → ℕ
reports delivering = 1
reports _ = 0

abbrev pub is_sealed : Submitter → Bool
is_sealed checking = true
is_sealed resuming = true
is_sealed (returned ok) = ok
is_sealed _ = false

abbrev pub holds : Submitter → ℕ
holds (starting k count) = 1
holds (withdrawing k count) = 1
holds _ = 0

abbrev pub entitled_submitter : Submitter → ℕ
entitled_submitter checking = 1
entitled_submitter resuming = 1
entitled_submitter _ = 0

abbrev pub reports_submitter : Submitter → ℕ
reports_submitter resuming = 1
reports_submitter _ = 0

abbrev pub Flags : Submitter → ℕ → Type 0
Flags checking fired = fired % 4 ≡ 2
Flags resuming fired = fired % 4 ≡ 2
Flags (returned true) fired = fired % 4 ≡ 2
Flags (returned false) fired = fired % 4 ≡ 1
Flags _ fired = fired % 4 ≡ 0

-- The branches from here on are not launched.
abbrev pub frontier : ℕ → Submitter → ℕ
frontier n created = 0
frontier n (launching k count) = k
frontier n (starting k count) = k
frontier n (withdrawing k count) = k
frontier n (judging k count) = k + 1
frontier n _ = n

-- Where the loop stands, and what its count says of the launched branches.
abbrev pub Counted : ℕ → Submitter → ℕ → Type 0
Counted n created m = m ≡ 0
Counted n (launching k count) m = (k ≤ n) × (m ≡ count)
Counted n (starting k count) m = (k < n) × (m ≡ count)
Counted n (withdrawing k count) m = (k < n) × (m ≡ count)
Counted n (judging k count) m = (k < n) × (m ≡ count)
Counted n closing m = m ≡ 0
Counted n (returned false) m = m ≡ 0
Counted n _ m = 0 < m

-- Its value, if it has one, took part in the race.
abbrev pub has_raced : Branch → Bool
has_raced unlaunched = false
has_raced running = false
has_raced (emplacing bad) = false
has_raced racing = false
has_raced _ = true

abbrev pub Stored : Branch → (ℕ → Bool) → ℕ → Type 0
Stored racing errors i = errors i ≡ false
Stored _ errors i = Unit {0}

abbrev pub values : List Outcome → ℕ
values [] = 0
values (value_from i ∷ os) = 1 + values os
values (all_failed ∷ os) = values os

abbrev pub failures : List Outcome → ℕ
failures [] = 0
failures (value_from i ∷ os) = failures os
failures (all_failed ∷ os) = 1 + failures os

abbrev pub Agrees : ℕ → ℕ → Outcome → Type 0
Agrees n winner (value_from i) = (winner ≡ i) × (i < n)
Agrees n winner all_failed = winner ≡ n

abbrev pub AllAgree : ℕ → ℕ → List Outcome → Type 0
AllAgree n winner [] = Unit {0}
AllAgree n winner (o ∷ os) = Agrees n winner o × AllAgree n winner os

-- A branch that has won is the winner.
abbrev pub Wins : ℕ → ℕ → Branch → Type 0
Wins winner i winning = winner ≡ i
Wins winner i canceling = winner ≡ i
Wins winner i (counting true) = winner ≡ i
Wins winner i _ = Unit {0}

-- No winner yet, or a branch that has stored a value. Before `submit` the winner says nothing.
abbrev pub First : ℕ → System → Submitter → Type 0
First n s created = Unit {0}
First n s _ =
    (s.state.winner ≡ n)
    ⊎ (s.state.winner < n)
      × (s.state.data_errors s.state.winner ≡ false)
      × (has_raced (s.branch s.state.winner) ≡ true)

abbrev pub before_submit : Submitter → Bool
before_submit created = true
before_submit _ = false

pub record Inv (n : ℕ) (s : System) : Type 0 where
  pub count : s.state.fired / 4 ≡ tally at_work n s.branch + holds s.submitter
  pub flags : Flags s.submitter s.state.fired
  pub counted : Counted n s.submitter (tally is_launched n s.branch)
  pub ahead : (i : ℕ) → frontier n s.submitter ≤ i → s.branch i ≡ unlaunched
  pub value_right :
      values s.resumed + tally wins n s.branch
      ≡ (if before_submit s.submitter then 0 else if s.state.winner == n then 0 else 1)
  pub failure_right :
      s.state.winner ≡ n
      → failures s.resumed + tally entitled n s.branch + entitled_submitter s.submitter
        ≡ (if is_sealed s.submitter && (s.state.fired / 4 == 0) then 1 else 0)
  pub no_report :
      s.state.winner ≢ n
      → failures s.resumed + tally reports n s.branch + reports_submitter s.submitter ≡ 0
  pub raced :
      (i : ℕ) → has_raced (s.branch i) ≡ true → s.state.data_errors i ≡ false → s.state.winner ≢ n
  pub stored : (i : ℕ) → Stored (s.branch i) s.state.data_errors i
  pub first : First n s s.submitter
  pub winner_wins : (i : ℕ) → Wins s.state.winner i (s.branch i)
  pub resumed_agree : AllAgree n s.state.winner s.resumed
