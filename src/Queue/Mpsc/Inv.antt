-- ===== src/Queue/Mpsc/Inv.antt =====
-- What holds of an `mpsc_queue` and its threads between any two accesses.
use native.Mathlib.Nat.{div-eq_of_lt}
use flux_foundry.Prelude.{
  ℕ, ◌+◌, ◌%◌, ◌≤◌, ◌<◌, ◌≡◌, ◌≢◌, ◌⊎◌, refl, Bool, true, false, ◌&&◌, Option, none, some, ◌==◌,
  arith,
}
use flux_foundry.Queue.Mpsc.{
  Mpsc, Producer, rests, loads, tests, exchanges, constructs, publishes, Consumer, idle, probes,
  moves, destroys, releases, advances, seq_of,
}
use flux_foundry.Queue.Mpsc.System.{System, start}

abbrev pub bit : Bool → ℕ
bit true = 1
bit false = 0

module _ {A : Type 0} where
  -- After its store to `ready` the consumer is one ticket ahead of `_h`.
  abbrev pub ahead : Consumer A → ℕ
  ahead (advances res) = 1
  ahead (idle res) = 0
  ahead (probes m) = 0
  ahead (moves seq) = 0
  ahead (destroys seq res) = 0
  ahead (releases seq res) = 0

  abbrev pub emptied : Consumer A → Bool
  emptied (releases seq res) = true
  emptied (idle res) = false
  emptied (probes m) = false
  emptied (moves seq) = false
  emptied (destroys seq res) = false
  emptied (advances res) = false

  abbrev pub released : System A → ℕ
  released s = s.queue.head + ahead s.consumer

  -- A ticket that a producer holds: taken, not published, with the object that is to be sent.
  pub record Holds (tail rel : ℕ) (published : ℕ → Bool) (owner : ℕ → ℕ) (sent : ℕ → Option A)
      (p t : ℕ) (obj : A) : Type 0 where
    pub taken : t < tail
    pub kept : rel ≤ t
    pub unpublished : published t ≡ false
    pub owned : owner t ≡ p
    pub sends : sent t ≡ some obj

  abbrev pub Works :
      ℕ → Mpsc A → ℕ → (ℕ → Bool) → (ℕ → ℕ) → (ℕ → Option A) → ℕ → Producer A → Type 0
  Works cap q rel published owner sent p (rests done) = Unit {0}
  Works cap q rel published owner sent p (loads m obj) = Unit {0}
  Works cap q rel published owner sent p (tests m obj t) = t ≤ q.tail
  Works cap q rel published owner sent p (exchanges m obj t) =
      (t < q.tail) ⊎ ((t ≡ q.tail) × (t < rel + cap))
  Works cap q rel published owner sent p (constructs obj t) =
      Holds q.tail rel published owner sent p t obj
  Works cap q rel published owner sent p (publishes obj t) =
      Holds q.tail rel published owner sent p t obj × (q.storage (t % cap) ≡ some obj)

  pub record Reads (cap : ℕ) (q : Mpsc A) (published : ℕ → Bool) (seq : ℕ) : Type 0 where
    pub before : q.head < q.tail
    pub ready : published q.head ≡ true
    pub current : seq ≡ q.ready (q.head % cap)

  abbrev pub Takes : ℕ → Mpsc A → (ℕ → Bool) → (ℕ → Option A) → Consumer A → Type 0
  Takes cap q published sent (idle res) = Unit {0}
  Takes cap q published sent (probes m) = Unit {0}
  Takes cap q published sent (moves seq) = Reads cap q published seq
  Takes cap q published sent (destroys seq res) = Reads cap q published seq × (res ≡ sent q.head)
  Takes cap q published sent (releases seq res) = Reads cap q published seq × (res ≡ sent q.head)
  Takes cap q published sent (advances res) = res ≡ sent q.head

  pub record Inv (cap n : ℕ) (s : System A) : Type 0 where
    pub few : s.queue.tail ≤ n
    pub order : released s ≤ s.queue.tail
    pub room : s.queue.tail ≤ released s + cap
    pub full :
        (i : ℕ)
        → released s ≤ i
        → i < s.queue.tail
        → s.queue.ready (i % cap) ≡ seq_of cap i + bit (s.published i)
    pub free :
        (i : ℕ) → s.queue.tail ≤ i → i < released s + cap → s.queue.ready (i % cap) ≡ seq_of cap i
    pub later : (i : ℕ) → s.queue.tail ≤ i → s.published i ≡ false
    pub items :
        (i : ℕ)
        → released s ≤ i
        → i < s.queue.tail
        → s.published i ≡ true
        → (emptied s.consumer && (i == s.queue.head)) ≡ false
        → s.queue.storage (i % cap) ≡ s.sent i
    pub sent_some : (i : ℕ) → i < s.queue.tail → s.sent i ≢ none
    pub got : (i : ℕ) → i < s.queue.head → s.received i ≡ s.sent i
    pub works :
        (p : ℕ) → Works cap s.queue (released s) s.published s.owner s.sent p (s.producers p)
    pub takes : Takes cap s.queue s.published s.sent s.consumer

  pub start-Inv : (cap : ℕ) → Inv cap 0 start
  start-Inv cap = record {
    few = omega arith;
    order = omega arith;
    room = omega arith;
    full = λ i h k. absurd (omega arith);
    free = λ i h k. let few : i < cap = omega arith in ground (arith, div-eq_of_lt few);
    later = λ i h. refl;
    items = λ i h k e f. absurd (omega arith);
    sent_some = λ i h. absurd (omega arith);
    got = λ i h. absurd (omega arith);
    works = λ p. tt;
    takes = tt;
  }
