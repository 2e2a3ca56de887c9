-- ===== src/Queue/Mpsc/System.antt =====
-- The producers and the consumer of one `mpsc_queue`, interleaved in any order, with the history.
use flux_foundry.Prelude.{ℕ, zero, suc, Bool, true, false, Option, none, some, ◌≡◌, update}
use flux_foundry.Queue.Mpsc.{
  Mpsc, Mode, Producer, rests, loads, tests, exchanges, constructs, publishes, Consumer, idle,
  probes, moves, destroys, releases, advances, init, emplace_step, pop_step,
}

-- By the tickets: the object that was sent under one, the producer that holds it, whether it is
-- published, and the object that the consumer took under it.
pub record System (A : Type 0) : Type 0 where
  pub queue : Mpsc A
  pub producers : ℕ → Producer A
  pub consumer : Consumer A
  pub sent : ℕ → Option A
  pub owner : ℕ → ℕ
  pub published : ℕ → Bool
  pub received : ℕ → Option A

module _ {A : Type 0} where
  abbrev pub start : System A
  start = record {
    queue = init;
    producers = λ p. rests true;
    consumer = idle none;
    sent = λ i. none;
    owner = λ i. 0;
    published = λ i. false;
    received = λ i. none;
  }

  -- What an access of a producer adds to the history, by where it stands after it.
  abbrev pub log_sent : Producer A → (ℕ → Option A) → ℕ → Option A
  log_sent (constructs obj t) sent = update sent t (some obj)
  log_sent (rests done) sent = sent
  log_sent (loads m obj) sent = sent
  log_sent (tests m obj t) sent = sent
  log_sent (exchanges m obj t) sent = sent
  log_sent (publishes obj t) sent = sent

  abbrev pub log_owner : ℕ → Producer A → (ℕ → ℕ) → ℕ → ℕ
  log_owner p (constructs obj t) owner = update owner t p
  log_owner p (rests done) owner = owner
  log_owner p (loads m obj) owner = owner
  log_owner p (tests m obj t) owner = owner
  log_owner p (exchanges m obj t) owner = owner
  log_owner p (publishes obj t) owner = owner

  -- And by where it stood before.
  abbrev pub log_published : Producer A → (ℕ → Bool) → ℕ → Bool
  log_published (publishes obj t) published = update published t true
  log_published (rests done) published = published
  log_published (loads m obj) published = published
  log_published (tests m obj t) published = published
  log_published (exchanges m obj t) published = published
  log_published (constructs obj t) published = published

  abbrev pub log_received : ℕ → Consumer A → (ℕ → Option A) → ℕ → Option A
  log_received i (advances res) received = update received i res
  log_received i (idle res) received = received
  log_received i (probes m) received = received
  log_received i (moves seq) received = received
  log_received i (destroys seq res) received = received
  log_received i (releases seq res) received = received

  abbrev pub emplace_access : ℕ → ℕ → Bool → Producer A → System A → System A
  emplace_access cap p spurious pc s =
      let (q, pc') = emplace_step cap spurious pc s.queue in
      record s {
        queue = q;
        producers = update s.producers p pc';
        sent = log_sent pc' s.sent;
        owner = log_owner p pc' s.owner;
        published = log_published pc s.published;
      }

  abbrev pub pop_access : ℕ → Consumer A → System A → System A
  pop_access cap c s =
      let (q, c') = pop_step cap c s.queue in
      record s { queue = q; consumer = c'; received = log_received s.queue.head c s.received }

pub data Step {A : Type 0} (cap : ℕ) (s : System A) : System A → Type 0 where
  call_emplace :
      (p : ℕ) (m : Mode) (obj : A) {done : Bool}
      → s.producers p ≡ rests done
      → Step cap s (record s { producers = update s.producers p (loads m obj) })
  emplaces :
      (p : ℕ) (spurious : Bool) → Step cap s (emplace_access cap p spurious (s.producers p) s)
  call_pop :
      (m : Mode) {res : Option A}
      → s.consumer ≡ idle res
      → Step cap s (record s { consumer = probes m })
  pops : Step cap s (pop_access cap s.consumer s)

pub data Reach {A : Type 0} (cap : ℕ) : ℕ → System A → Type 0 where
  initial : Reach cap zero start
  next : {n : ℕ} {s t : System A} → Reach cap n s → Step cap s t → Reach cap (suc n) t
