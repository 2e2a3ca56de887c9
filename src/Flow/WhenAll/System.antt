-- ===== src/Flow/WhenAll/System.antt =====
-- A `when_all` with its branches and its submitting thread, interleaved in any order.
use flux_foundry.Prelude.{ℕ, Bool, false, List, [], ◌∷◌, ◌≡◌, update}
use flux_foundry.Flow.WhenAll.{
  Kind, WhenAll, fresh, Outcome, Branch, unlaunched, running, emplacing, delivering, emplace_step,
  Submitter, created, starting, resuming, submit_step, cancel,
}

-- `resumed` is the history of the calls of `resume`.
pub record System : Type 0 where
  pub state : WhenAll
  pub submitter : Submitter
  pub branch : ℕ → Branch
  pub resumed : List Outcome

abbrev pub start : ℕ → System
start n = record { state = fresh n; submitter = created; branch = λ i. unlaunched; resumed = [] }

-- The call of `resume` in an access, if it is one.
abbrev pub note_branch : Branch → List Outcome → List Outcome
note_branch (delivering o) xs = o ∷ xs
note_branch _ xs = xs

abbrev pub note_submitter : Submitter → List Outcome → List Outcome
note_submitter (resuming o) xs = o ∷ xs
note_submitter _ xs = xs

-- A runner that starts makes its branch run.
abbrev pub start_branch : Submitter → Bool → (ℕ → Branch) → ℕ → Branch
start_branch (starting k) false branch = update branch k running
start_branch _ _ branch = branch

abbrev pub submit_access : Kind → ℕ → (ℕ → Bool) → Bool → System → System
submit_access kind n packs throws s =
    let (state', submitter') = submit_step kind n packs throws s.state s.submitter in
    record {
      state = state';
      submitter = submitter';
      branch = start_branch s.submitter throws s.branch;
      resumed = note_submitter s.submitter s.resumed;
    }

abbrev pub branch_access : Kind → ℕ → System → ℕ → System
branch_access kind n s i =
    let (state', branch') = emplace_step kind n s.state i (s.branch i) in
    record s {
      state = state';
      branch = update s.branch i branch';
      resumed = note_branch (s.branch i) s.resumed;
    }

pub data Step (kind : Kind) (n : ℕ) (packs : ℕ → Bool) (s : System) : System → Type 0 where
  submits : (throws : Bool) → Step kind n packs s (submit_access kind n packs throws s)
  finishes :
      (i : ℕ) (bad : Bool)
      → s.branch i ≡ running
      → Step kind n packs s (record s { branch = update s.branch i (emplacing bad) })
  accesses : (i : ℕ) → Step kind n packs s (branch_access kind n s i)
  cancels : Step kind n packs s (record s { state = cancel n s.state })

pub data Reach (kind : Kind) (n : ℕ) (packs : ℕ → Bool) : System → Type 0 where
  initial : Reach kind n packs (start n)
  later : {s t : System} → Reach kind n packs s → Step kind n packs s t → Reach kind n packs t
