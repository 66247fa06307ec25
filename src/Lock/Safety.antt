-- ===== src/Lock/Safety.antt =====
-- Mutual exclusion of the spin lock (kernel/i386/concurrent.cpp, include/i386/concurrent.h).
use tysos_cxx.Prelude.{
  ℕ, zero, suc, Bool, true, false, ◌≡◌, ◌≢◌, refl, sym, ◌∙◌, ap, subst, ◌==◌, if◌then◌else◌, some,
  inl, inr, Bool-cases, arith,
}
use tysos_cxx.Lock.{
  Pc, outside, testing, masking, comparing, unmasking, masking_to_take, taking, inside, releasing,
  enabling, Thread, lock_id, cmpxchg, step, System, set_thread, Move, advance, switch,
  release_other, advanced, move, Reach, start, next,
}

-- From the instruction that takes the lock to the one that gives it back.
abbrev pub holds : Pc → Bool
holds inside = true
holds releasing = true
holds pc = false

-- With interrupts off where it takes or holds the lock, and its id in eax where it gives it back.
abbrev pub Masked : ℕ → Pc → (eax : ℕ) → (ints : Bool) → Type 0
Masked id taking eax ints = ints ≡ false
Masked id inside eax ints = ints ≡ false
Masked id releasing eax ints = (ints ≡ false) × (eax ≡ id)
Masked id pc eax ints = Unit {0}

-- The running thread: the lock is free or its own.
pub record Runs (id : ℕ) (t : Thread) (lock : ℕ) : Type 0 where
  pub masked : Masked id t.pc t.eax t.ints
  pub word : lock ≡ (if holds t.pc then id else 0)

pub lock_id-ne_zero : (current : ℕ) → lock_id 0 current ≢ 0
unfolding lock_id
lock_id-ne_zero zero = ground arith
lock_id-ne_zero (suc n) = ground arith

step-Runs :
    (id : ℕ) (pc : Pc) (eax : ℕ) (ints : Bool) (lock : ℕ)
    → id ≢ 0
    → Masked id pc eax ints
    → lock ≡ (if holds pc then id else 0)
    → Runs id
        (step id (record { pc = pc; eax = eax; ints = ints }) lock).0
        (step id (record { pc = pc; eax = eax; ints = ints }) lock).1
unfolding step cmpxchg
step-Runs id outside eax ints lock ne m w = record { masked = tt; word = w }
step-Runs id testing eax ints lock ne m w = record { masked = rw w tt; word = rw w refl }
step-Runs id masking eax ints lock ne m w = record { masked = tt; word = w }
step-Runs id comparing eax ints lock ne m w =
    let not_mine : (lock == id) ≡ false = ground arith in
    record { masked = rw not_mine tt; word = rw not_mine w }
step-Runs id unmasking eax ints lock ne m w = record { masked = tt; word = w }
step-Runs id masking_to_take eax ints lock ne m w = record { masked = refl; word = w }
step-Runs id taking eax ints lock ne m w = elim (Bool-cases (lock == eax)) [
  | inl same ↦ record { masked = rw same m; word = rw same refl }
  | inr differ ↦ record { masked = rw differ tt; word = rw differ w }
]
step-Runs id inside eax ints lock ne m w = record { masked = (m, refl); word = w }
step-Runs id releasing eax ints lock ne m w =
    let same : (lock == eax) ≡ true = let e = m.1 in ground arith in
    record { masked = rw same tt; word = rw same refl }
step-Runs id enabling eax ints lock ne m w = record { masked = tt; word = w }

module _ (current : ℕ → ℕ) where
  pub record Inv (s : System) : Type 0 where
    pub runs : Runs (lock_id 0 (current s.running)) (s.thread s.running) s.lock
    pub masked :
        (j : ℕ) → Masked (lock_id 0 (current j)) (s.thread j).pc (s.thread j).eax (s.thread j).ints
    pub others : (j : ℕ) → j ≢ s.running → holds (s.thread j).pc ≡ false

  start-Inv :
      (i : ℕ)
      → Inv (record {
        lock = 0;
        running = i;
        thread = λ j. record { pc = outside; eax = 0; ints = true };
      })
  start-Inv i = record {
    runs = record { masked = tt; word = refl };
    masked = λ j. tt;
    others = λ j ne. refl;
  }

  pub set_thread-same : (f : ℕ → Thread) (i : ℕ) (t : Thread) → set_thread f i t i ≡ t
  unfolding set_thread
  set_thread-same f i t = ground arith

  set_thread-other :
      (f : ℕ → Thread) (i j : ℕ) (t : Thread) → (j == i) ≡ false → set_thread f i t j ≡ f j
  unfolding set_thread
  set_thread-other f i j t ne = rw ne refl

  advanced-Inv : (s : System) → Inv s → Inv (advanced current s)
  unfolding advanced
  advanced-Inv s h =
      let i = s.running in
      let id = lock_id 0 (current i) in
      let t = s.thread i in
      let r =
        step-Runs id t.pc t.eax t.ints s.lock (lock_id-ne_zero (current i)) h.runs.masked
          h.runs.word in
      let new = step id t s.lock in
      let here = set_thread-same s.thread i new.0 in
      record {
        runs = subst (λ u. Runs id u new.1) (sym here) r;
        masked = λ j. elim (Bool-cases (j == i)) [
          | inl same ↦
              let e : j ≡ i = ground arith in
              subst
                (λ k.
                  Masked (lock_id 0 (current k)) (set_thread s.thread i new.0 k).pc
                    (set_thread s.thread i new.0 k).eax (set_thread s.thread i new.0 k).ints)
                (sym e) (subst (λ u. Masked id u.pc u.eax u.ints) (sym here) r.masked)
          | inr differ ↦
              subst (λ u. Masked (lock_id 0 (current j)) u.pc u.eax u.ints)
                (sym (set_thread-other s.thread i j new.0 differ)) (h.masked j)
        ];
        others = λ j ne.
            let differ : (j == i) ≡ false = ground arith in
            ap (λ u. holds u.pc) (set_thread-other s.thread i j new.0 differ) ∙ h.others j ne;
      }

  -- A thread with interrupts on does not hold the lock.
  enabled_free : (id : ℕ) (pc : Pc) (eax : ℕ) → Masked id pc eax true → holds pc ≡ false
  enabled_free id taking eax m = refl
  enabled_free id inside eax m = absurd (cc)
  enabled_free id releasing eax m = absurd (let e = m.0 in cc)
  enabled_free id outside eax m = refl
  enabled_free id testing eax m = refl
  enabled_free id masking eax m = refl
  enabled_free id comparing eax m = refl
  enabled_free id unmasking eax m = refl
  enabled_free id masking_to_take eax m = refl
  enabled_free id enabling eax m = refl

  switch-Inv :
      (s : System) (j : ℕ)
      → Inv s
      → (s.thread s.running).ints ≡ true
      → Inv (record s { running = j })
  switch-Inv s j h on =
      let t = s.thread s.running in
      let id = lock_id 0 (current s.running) in
      let free =
        enabled_free id t.pc t.eax (subst (λ b. Masked id t.pc t.eax b) on (h.masked s.running)) in
      let none_holds : (k : ℕ) → holds (s.thread k).pc ≡ false = λ k.
        elim (Bool-cases (k == s.running)) [
          | inl same ↦
              (let e : k ≡ s.running = ground arith in ap (λ x. holds (s.thread x).pc) e ∙ free)
          | inr differ ↦ h.others k (ground arith)
        ] in
      let unlocked : s.lock ≡ 0 = h.runs.word ∙ rw free refl in
      record {
        runs = record { masked = h.masked j; word = unlocked ∙ rw (none_holds j) refl };
        masked = h.masked;
        others = λ k ne. none_holds k;
      }

  move-Inv : (m : Move) (s t : System) → Inv s → move current false m s ≡ some t → Inv t
  unfolding move
  move-Inv advance s t h e = subst Inv (ground arith) (advanced-Inv s h)
  move-Inv (switch j) s t h e = elim (Bool-cases (s.thread s.running).ints) [
    | inl on ↦ subst Inv (ground arith) (switch-Inv s j h on)
    | inr off ↦ absurd (ground arith)
  ]
  move-Inv release_other s t h e = absurd (cc)

  pub Reach-Inv : (s : System) → Reach current false s → Inv s
  Reach-Inv s (start i) = start-Inv i
  Reach-Inv s (next {s = r} before m e) = move-Inv m r s (Reach-Inv r before) e

  -- In each state that threads reach on one processor, when none of them releases another lock
  -- inside, at most one thread is between the instruction that takes the lock and the one that
  -- gives it back; it is the one that runs, interrupts are off, and the lock's word is its id.
  pub mutual_exclusion :
      (s : System) (i j : ℕ)
      → Reach current false s
      → holds (s.thread i).pc ≡ true
      → holds (s.thread j).pc ≡ true
      → (i ≡ j) × (i ≡ s.running) × ((s.thread i).ints ≡ false) × (s.lock ≡ lock_id 0 (current i))
  mutual_exclusion s i j reach in_i in_j =
      let h = Reach-Inv s reach in
      let is_running : (k : ℕ) → holds (s.thread k).pc ≡ true → k ≡ s.running = λ k in_k.
        elim (Bool-cases (k == s.running)) [
          | inl same ↦ ground arith
          | inr differ ↦ (let out = h.others k (ground arith) in absurd (cc))
        ] in
      let i_runs = is_running i in_i in
      let t = s.thread i in
      let id = lock_id 0 (current i) in
      let off : t.ints ≡ false = elim (Bool-cases t.ints) [
        | inl on ↦
            (let free =
                enabled_free id t.pc t.eax (subst (λ b. Masked id t.pc t.eax b) on (h.masked i)) in
              absurd (cc))
        | inr off ↦ off
      ] in
      let held = subst (λ k. holds (s.thread k).pc ≡ true) i_runs in_i in
      (
        i_runs ∙ sym (is_running j in_j),
        i_runs,
        off,
        (h.runs.word ∙ rw held refl) ∙ ap (λ k. lock_id 0 (current k)) (sym i_runs),
      )
