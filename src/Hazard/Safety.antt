-- ===== src/Hazard/Safety.antt =====
-- Objects that are protected are not deleted.
use flux_foundry.Prelude.{
  ℕ, zero, suc, ◌≤◌, ◌<◌, ◌≡◌, ◌≢◌, refl, inl, inr, ◌==◌, update, Bool-cases, arith, Bool, true,
  false, List, [], ◌∷◌, ◌++◌, sym, if◌then◌else◌,
}
use flux_foundry.Hazard.{
  max_slot, Reader, rests, reads, publishes, rereads, holds, Life, linked, scanned, kept, deleted,
  Hazards, is_empty, latest, drain, view, protect_step, scan_step, Step, call_protect, protects,
  call_unprotect, stores, retires, sweeps, drains, shares, overwrites, scans, Reach, initial, next,
}

-- A scan has not passed slot `k`.
abbrev Unpassed : ℕ → Life → Type 0
Unpassed k linked = Unit {0}
Unpassed k (scanned i) = i ≤ k
Unpassed k kept = Unit {0}
Unpassed k deleted = ⊥

-- A reader's slot is going to hold what it has published; if the store was there before the second
-- load, no scan has passed the slot while the reader protects the object.
abbrev Guarded : ℕ → ℕ → List ℕ → Reader → (ℕ → Life) → Type 0
Guarded k slot buffer rests life = Unit {0}
Guarded k slot buffer (reads a) life = Unit {0}
Guarded k slot buffer (publishes a p) life = Unit {0}
Guarded k slot buffer (rereads a p) life = latest slot buffer ≡ p
Guarded k slot buffer (holds p true) life = (buffer ≡ []) × (slot ≡ p) × Unpassed k (life p)
Guarded k slot buffer (holds p false) life = Unit {0}

pub record IsSound (s : Hazards) : Type 0 where
  pub target_linked : (a : ℕ) → s.life (s.targets a) ≡ linked
  pub guarded :
      (k : ℕ)
      → k < max_slot
      → s.shared k ≡ false
      → Guarded k (s.slots k) (s.buffers k) (s.readers k) s.life

latest-append : (slot p : ℕ) (vs : List ℕ) → latest slot (vs ++ (p ∷ [])) ≡ p
latest-append slot p [] = refl
latest-append slot p (v ∷ vs) = latest-append v p vs

-- A scan of `p` meets the slot before it passes it.
scan_step-Unpassed :
    (k p : ℕ) (slots : ℕ → ℕ) (l : Life)
    → k < max_slot
    → slots k ≡ p
    → Unpassed k l
    → Unpassed k (scan_step slots p l)
unfolding scan_step
scan_step-Unpassed k p slots linked h e u = u
scan_step-Unpassed k p slots (scanned i) h e u = elim (Bool-cases (slots i == p)) [
  | inl y ↦ ground (arith, y)
  | inr n ↦ ground (arith, n, e, u)
]
scan_step-Unpassed k p slots kept h e u = u
scan_step-Unpassed k p slots deleted h e u = u

scan_linked : (p : ℕ) (slots : ℕ → ℕ) (l : Life) → l ≡ linked → scan_step slots p l ≡ linked
unfolding scan_step
scan_linked p slots l e = rw e refl

guarded_scan :
    (k p slot : ℕ) (buffer : List ℕ) (r : Reader) (slots : ℕ → ℕ) (life : ℕ → Life)
    → k < max_slot
    → (buffer ≡ [] → slots k ≡ slot)
    → Guarded k slot buffer r life
    → Guarded k slot buffer r (update life p (scan_step slots p (life p)))
guarded_scan k p slot buffer rests slots life h e g = g
guarded_scan k p slot buffer (reads a) slots life h e g = g
guarded_scan k p slot buffer (publishes a q) slots life h e g = g
guarded_scan k p slot buffer (rereads a q) slots life h e g = g
guarded_scan k p slot buffer (holds q true) slots life h e g =
    ground (arith, g, e g.0, scan_step-Unpassed k p slots (life p) h)
guarded_scan k p slot buffer (holds q false) slots life h e g = g

view_memory : (own : ℕ → Bool) (s : Hazards) (k : ℕ) → s.buffers k ≡ [] → view own s k ≡ s.slots k
view_memory own s k e = ground (arith, e)

guarded_begin :
    (k p slot : ℕ) (buffer : List ℕ) (r : Reader) (life : ℕ → Life)
    → Guarded k slot buffer r life
    → Guarded k slot buffer r (update life p (scanned 0))
guarded_begin k p slot buffer rests life g = g
guarded_begin k p slot buffer (reads a) life g = g
guarded_begin k p slot buffer (publishes a q) life g = g
guarded_begin k p slot buffer (rereads a q) life g = g
guarded_begin k p slot buffer (holds q true) life g = ground (arith, g)
guarded_begin k p slot buffer (holds q false) life g = g

-- A store that reaches the memory changes nothing for its own thread.
guarded_drain :
    (k slot v : ℕ) (vs : List ℕ) (r : Reader) (life : ℕ → Life)
    → Guarded k slot (v ∷ vs) r life
    → Guarded k v vs r life
guarded_drain k slot v vs rests life g = g
guarded_drain k slot v vs (reads a) life g = g
guarded_drain k slot v vs (publishes a q) life g = g
guarded_drain k slot v vs (rereads a q) life g = g
guarded_drain k slot v vs (holds q true) life g = absurd (ground (arith, g))
guarded_drain k slot v vs (holds q false) life g = g

-- The second load finds the pointer in the target.
guarded_found :
    (k p slot : ℕ) (buffer : List ℕ) (life : ℕ → Life)
    → latest slot buffer ≡ p
    → life p ≡ linked
    → Guarded k slot buffer (holds p (is_empty buffer)) life
guarded_found k p slot [] life e l = (refl, e, rw l tt)
guarded_found k p slot (v ∷ vs) life e l = tt

guarded_result :
    (k a p t slot : ℕ) (buffer : List ℕ) (life : ℕ → Life)
    → latest slot buffer ≡ p
    → life t ≡ linked
    → Guarded k slot buffer (if p == t then holds p (is_empty buffer) else reads a) life
guarded_result k a p t slot buffer life e l = elim (Bool-cases (p == t)) [
  | inl y ↦ rw y (guarded_found k p slot buffer life e (ground (arith, y, l)))
  | inr n ↦ rw n tt
]

protect_step-IsSound :
    (k : ℕ) (r : Reader) (s : Hazards)
    → r ≡ s.readers k
    → k < max_slot
    → IsSound s
    → IsSound (protect_step k r s)
protect_step-IsSound k rests s e h inv = inv
protect_step-IsSound k (reads a) s e h inv = record {
  target_linked = inv.target_linked;
  guarded = λ j hj free. ground (arith, inv.guarded j hj free);
}
protect_step-IsSound k (publishes a p) s e h inv = record {
  target_linked = inv.target_linked;
  guarded =
      λ j hj free. ground (arith, inv.guarded j hj free, latest-append (s.slots k) p (s.buffers k));
}
protect_step-IsSound k (rereads a p) s e h inv = record {
  target_linked = inv.target_linked;
  guarded = λ j hj free. elim (Bool-cases (k == j)) [
    | inl y ↦
        let same : j ≡ k = ground (arith, y) in
        rw y (
          rw same (
            guarded_result k a p (s.targets a) (s.slots k) (s.buffers k) s.life
              (ground (arith, e, inv.guarded k h (ground (arith, free, same))))
              (inv.target_linked a)))
    | inr n ↦ rw n (inv.guarded j hj free)
  ];
}
protect_step-IsSound k (holds p b) s e h inv = inv

drain-IsSound :
    (k : ℕ) (buffer : List ℕ) (s : Hazards)
    → buffer ≡ s.buffers k
    → IsSound s
    → IsSound (drain k buffer s)
drain-IsSound k [] s e inv = inv
drain-IsSound k (v ∷ vs) s e inv = record {
  target_linked = inv.target_linked;
  guarded = λ j hj free. elim (Bool-cases (k == j)) [
    | inl y ↦ rw y (
        guarded_drain j (s.slots j) v vs (s.readers j) s.life
          (rw (sym (waiting y)) at (inv.guarded j hj free)))
    | inr n ↦ rw n (inv.guarded j hj free)
  ];
}
  where
    waiting : {j : ℕ} → (k == j) ≡ true → (v ∷ vs) ≡ s.buffers j
    waiting y = ground (arith, y, e)

step-IsSound : (s t : Hazards) → Step s t → IsSound s → IsSound t
step-IsSound s t (call_protect k a h i) inv = record {
  target_linked = inv.target_linked;
  guarded = λ j hj free. ground (arith, inv.guarded j hj free);
}
step-IsSound s t (protects k h) inv = protect_step-IsSound k (s.readers k) s refl h inv
step-IsSound s t (call_unprotect k h i) inv = record {
  target_linked = inv.target_linked;
  guarded = λ j hj free. ground (arith, inv.guarded j hj free);
}
step-IsSound s t (stores a p l) inv = record {
  target_linked = λ b. ground (arith, inv.target_linked b);
  guarded = inv.guarded;
}
step-IsSound s t (retires p l h) inv = record {
  target_linked = λ a. ground (arith, inv.target_linked a, h a);
  guarded = λ j hj free.
      guarded_begin j p (s.slots j) (s.buffers j) (s.readers j) s.life (inv.guarded j hj free);
}
step-IsSound s t (sweeps p l) inv = record {
  target_linked = λ a. ground (arith, inv.target_linked a);
  guarded = λ j hj free.
      guarded_begin j p (s.slots j) (s.buffers j) (s.readers j) s.life (inv.guarded j hj free);
}
step-IsSound s t (drains k) inv = drain-IsSound k (s.buffers k) s refl inv
step-IsSound s t (shares k) inv = record {
  target_linked = inv.target_linked;
  guarded = λ j hj free. inv.guarded j hj (ground (arith, free));
}
step-IsSound s t (overwrites k v e) inv = record {
  target_linked = inv.target_linked;
  guarded = λ j hj free. elim (Bool-cases (k == j)) [
    | inl y ↦ absurd (ground (arith, y, e, free))
    | inr n ↦ rw n (inv.guarded j hj free)
  ];
}
step-IsSound s t (scans own p) inv = record {
  target_linked = λ a. ground (arith, scan_linked p (view own s) (s.life p), inv.target_linked a);
  guarded = λ j hj free.
      guarded_scan j p (s.slots j) (s.buffers j) (s.readers j) (view own s) s.life hj
        (λ e. view_memory own s j e) (inv.guarded j hj free);
}

pub Reach-IsSound : (n : ℕ) (s : Hazards) → Reach n s → IsSound s
Reach-IsSound zero s initial = record { target_linked = λ a. refl; guarded = λ k h free. tt }
Reach-IsSound (suc n) t (next {s = s} r x) = step-IsSound s t x (Reach-IsSound n s r)

-- While a `hazard_ptr` holds what `protect` returned, its slot holds that pointer and the object is
-- not given to its deleter, in whatever order readers, writers and retiring threads take their steps
-- and stores reach the memory, under two conditions that the code does not itself ensure: the store to
-- the slot had reached the memory before the last load of the target, and no other `hazard_ptr` was
-- given the same slot.
pub protected_not_deleted :
    (n k p : ℕ) (s : Hazards)
    → Reach n s
    → k < max_slot
    → s.readers k ≡ holds p true
    → s.shared k ≡ false
    → (s.slots k ≡ p) × (s.life p ≢ deleted)
protected_not_deleted n k p s r h e free = ground (arith, e, (Reach-IsSound n s r).guarded k h free)
