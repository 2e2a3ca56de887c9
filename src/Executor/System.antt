-- ===== src/Executor/System.antt =====
-- Any number of threads that dispatch, one that runs, and one that shuts down.
use native.Mathlib.Numerals.{add-one}
use flux_foundry.Prelude.{
  ℕ, zero, suc, ◌+◌, ◌*◌, ◌^◌, ◌≤◌, ◌<◌, ◌≡◌, refl, Bool, true, false, some, List, [], ◌∷◌, ◌++◌,
  ◌==◌, if◌then◌else◌, length, length-append, arith,
}
use flux_foundry.Executor.{
  Executor, fresh, is_running, is_shutdown, pending_count, buy_ticket, dispatch_pass, enqueued,
  ran_inline, aborted, enter, execute, stop, run_pass, finish_task, leave, try_shutdown,
}

-- Where the consumer stands: outside `run`, in its loop, in a task, or past the loop.
pub data Consumer : Type 0 where
  outside : Consumer
  looping : Consumer
  busy : (task : ℕ) → Consumer
  leaving : Consumer

-- The executor, the consumer, the tasks whose ticket is bought and that are not enqueued yet, and
-- the history: the tasks that bought a ticket, those that ran, those that were given up by an abort.
pub record System : Type 0 where
  pub exec : Executor
  pub consumer : Consumer
  pub bought : List ℕ
  pub admitted : List ℕ
  pub executed : List ℕ
  pub lost : List ℕ

abbrev pub start : System
start = record {
  exec = fresh;
  consumer = outside;
  bought = [];
  admitted = [];
  executed = [];
  lost = [];
}

pub data Step (capacity : ℕ) (s : System) : System → Type 0 where
  admit :
      (task : ℕ) {e : Executor}
      → buy_ticket s.exec ≡ some e
      → Step capacity s
          (record s { exec = e; bought = task ∷ s.bought; admitted = task ∷ s.admitted })
  -- Any of the ticket holders goes on.
  hand_in :
      (missed : Bool) (task : ℕ) (before rest : List ℕ) {e : Executor}
      → s.bought ≡ before ++ (task ∷ rest)
      → dispatch_pass capacity missed false s.exec task ≡ enqueued e
      → Step capacity s (record s { exec = e; bought = before ++ rest })
  -- A task dispatches to its own executor while the queue is full, or loses a race for a slot.
  inline_run :
      (missed : Bool) (task running : ℕ) (before rest : List ℕ) {e : Executor}
      → s.consumer ≡ busy running
      → s.bought ≡ before ++ (task ∷ rest)
      → dispatch_pass capacity missed true s.exec task ≡ ran_inline e
      → Step capacity s
          (record s { exec = e; bought = before ++ rest; executed = task ∷ s.executed })
  give_up :
      (missed : Bool) (task : ℕ) (before rest : List ℕ) {e : Executor}
      → s.bought ≡ before ++ (task ∷ rest)
      → dispatch_pass capacity missed false s.exec task ≡ aborted e
      → Step capacity s (record s { exec = e; bought = before ++ rest; lost = task ∷ s.lost })
  begin_run :
      {e : Executor}
      → s.consumer ≡ outside
      → enter s.exec ≡ some e
      → Step capacity s (record s { exec = e; consumer = looping })
  take_task :
      (task : ℕ) {e : Executor}
      → s.consumer ≡ looping
      → run_pass s.exec ≡ execute task e
      → Step capacity s (record s { exec = e; consumer = busy task })
  stop_idle :
      s.consumer ≡ looping
      → run_pass s.exec ≡ stop
      → Step capacity s (record s { consumer = leaving })
  end_task :
      (task : ℕ)
      → s.consumer ≡ busy task
      → Step capacity s (record s {
        exec = (finish_task s.exec).0;
        consumer = if (finish_task s.exec).1 then leaving else looping;
        executed = task ∷ s.executed;
      })
  end_run :
      s.consumer ≡ leaving → Step capacity s (record s { exec = leave s.exec; consumer = outside })
  shut_down : Step capacity s (record s { exec = (try_shutdown s.exec).0 })

pub data Reach (capacity : ℕ) : ℕ → System → Type 0 where
  initial : Reach capacity zero start
  later : {n : ℕ} {s t : System} → Reach capacity n s → Step capacity s t → Reach capacity (suc n) t

abbrev pub count : ℕ → List ℕ → ℕ
count x [] = 0
count x (y ∷ ys) = (if y == x then 1 else 0) + count x ys

pub count-append : (x : ℕ) (xs ys : List ℕ) → count x (xs ++ ys) ≡ count x xs + count x ys
count-append x [] ys = omega arith
count-append x (y ∷ xs) ys = omega (arith, count-append x xs ys)

-- The task that the consumer is in, as a count of tasks and of tickets.
abbrev pub current : Consumer → ℕ → ℕ
current (busy task) x = if task == x then 1 else 0
current c x = 0

abbrev pub holds_ticket : Consumer → ℕ
holds_ticket (busy task) = 1
holds_ticket c = 0

abbrev pub active : Consumer → Bool
active outside = false
active c = true

-- Past its loop the consumer has seen a shutdown with no ticket left.
abbrev pub Drained : Consumer → ℕ → Type 0
Drained leaving ctrl = (is_shutdown ctrl ≡ true) × (pending_count ctrl ≡ 0)
Drained c ctrl = Unit {0}

pub record Inv (n : ℕ) (s : System) : Type 0 where
  pub few : s.exec.ctrl ≤ 4 * n + 3
  pub tickets :
      pending_count s.exec.ctrl ≡ length s.bought + length s.exec.q + holds_ticket s.consumer
  pub balance :
      (x : ℕ)
      → count x s.admitted
        ≡ count x s.bought
          + count x s.exec.q
          + current s.consumer x
          + count x s.executed
          + count x s.lost
  pub running : is_running s.exec.ctrl ≡ active s.consumer
  pub drained : Drained s.consumer s.exec.ctrl

pub start-Inv : Inv 0 start
start-Inv = record {
  few = omega arith;
  tickets = omega arith;
  balance = λ x. refl;
  running = refl;
  drained = tt;
}

pub split_length :
    (bought : List ℕ) (task : ℕ) (before rest : List ℕ)
    → bought ≡ before ++ (task ∷ rest)
    → length bought ≡ length (before ++ rest) + 1
split_length bought task before rest e =
    rw e (omega (arith, length-append before rest, length-append before (task ∷ rest)))

split_count :
    (x : ℕ) (bought : List ℕ) (task : ℕ) (before rest : List ℕ)
    → bought ≡ before ++ (task ∷ rest)
    → count x bought ≡ count x (before ++ rest) + (if task == x then 1 else 0)
split_count x bought task before rest e =
    rw e (omega (arith, count-append x before rest, count-append x before (task ∷ rest)))

module _ {capacity n : ℕ} {s : System} (inv : Inv n s) (small : n < 2 ^ 60) where
  Step-Inv : {t : System} → Step capacity s t → Inv (n + 1) t
  unfolding buy_ticket dispatch_pass enter run_pass finish_task leave try_shutdown
  Step-Inv (admit task b) = record {
    few = ground (arith, inv.few);
    tickets = ground (arith, inv.few, inv.tickets);
    balance = λ x. ground (arith, inv.balance x);
    running = ground (arith, inv.few, inv.running);
    drained = ground (arith, inv.few, inv.drained);
  }
  Step-Inv (hand_in missed task before rest split p) = record {
    few = ground (arith, inv.few);
    tickets = ground (
      arith,
      inv.tickets,
      split_length s.bought task before rest split,
      length-append s.exec.q (task ∷ []),
    );
    balance = λ x. ground (
      arith,
      inv.balance x,
      split_count x s.bought task before rest split,
      count-append x s.exec.q (task ∷ []),
    );
    running = ground (arith, inv.running);
    drained = ground (arith, inv.drained);
  }
  Step-Inv (inline_run missed task running before rest c split p) = record {
    few = ground (arith, inv.few, inv.tickets, split_length s.bought task before rest split);
    tickets = ground (arith, inv.few, inv.tickets, split_length s.bought task before rest split);
    balance = λ x. ground (arith, inv.balance x, split_count x s.bought task before rest split);
    running =
        ground
          (arith, inv.few, inv.running, inv.tickets, split_length s.bought task before rest split);
    drained = ground (arith, inv.drained);
  }
  Step-Inv (give_up missed task before rest split p) = record {
    few = ground (arith, inv.few, inv.tickets, split_length s.bought task before rest split);
    tickets = ground (arith, inv.few, inv.tickets, split_length s.bought task before rest split);
    balance = λ x. ground (arith, inv.balance x, split_count x s.bought task before rest split);
    running =
        ground
          (arith, inv.few, inv.running, inv.tickets, split_length s.bought task before rest split);
    drained = ground (arith, inv.drained, inv.running);
  }
  Step-Inv (begin_run c e) = record {
    few = ground (arith, inv.few);
    tickets = ground (arith, inv.few, inv.tickets);
    balance = λ x. ground (arith, inv.balance x);
    running = ground (arith, inv.few, inv.running);
    drained = ground (arith, inv.few, inv.drained);
  }
  Step-Inv (take_task task c e) = record {
    few = ground (arith, inv.few);
    tickets = ground (arith, inv.few, inv.tickets);
    balance = λ x. ground (arith, inv.balance x);
    running = ground (arith, inv.few, inv.running);
    drained = ground (arith, inv.few, inv.drained);
  }
  Step-Inv (stop_idle c e) = record {
    few = ground (arith, inv.few);
    tickets = ground (arith, inv.few, inv.tickets);
    balance = λ x. ground (arith, inv.balance x);
    running = ground (arith, inv.few, inv.running);
    drained = ground (arith, inv.few, inv.drained);
  }
  Step-Inv (end_task task c) = record {
    few = ground (arith, inv.few, inv.tickets);
    tickets = ground (arith, inv.few, inv.tickets);
    balance = λ x. ground (arith, inv.balance x);
    running = ground (arith, inv.few, inv.running, inv.tickets);
    drained = ground (arith, inv.few, inv.drained, inv.tickets);
  }
  Step-Inv (end_run c) = record {
    few = ground (arith, inv.few);
    tickets = ground (arith, inv.few, inv.tickets);
    balance = λ x. ground (arith, inv.balance x);
    running = ground (arith, inv.few, inv.running);
    drained = tt;
  }
  Step-Inv (shut_down) = record {
    few = ground (arith, inv.few);
    tickets = ground (arith, inv.few, inv.tickets);
    balance = λ x. ground (arith, inv.balance x);
    running = ground (arith, inv.few, inv.running);
    drained = ground (arith, inv.few, inv.drained);
  }

pub Reach-Inv : {capacity n : ℕ} {s : System} → n < 2 ^ 60 → Reach capacity n s → Inv n s
Reach-Inv small initial = start-Inv
Reach-Inv {n = suc n} small (later r st) =
    rw (add-one n) at (Step-Inv (Reach-Inv (omega arith) r) (omega arith) st)
