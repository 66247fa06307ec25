-- ===== src/Scheduler/Next.antt =====
-- Which thread _GetNextThread chooses (include/sys/sched.h).
use tysos_cxx.Prelude.{
  ℕ, zero, suc, ◌-◌, ◌<◌, ◌≡◌, List, [], ◌∷◌, Option, none, some, refl, ◌==◌, ==_iff, leb, arith,
  Bool-cases, inl, inr, ◌⊎◌, ◌≢◌,
}
use tysos_cxx.Scheduler.{Scheduler, update, charge, get_next, switch_to, schedule_next, priorities}
use tysos_cxx.Scheduler.Invariant.{Inv, retag}
use tysos_cxx.Scheduler.Moves.{Prioritised, reschedule-Inv}

-- Charging a thread for its time succeeds and keeps the scheduler in order.
charge-Inv :
    (t ns : ℕ) (s : Scheduler)
    → Inv s
    → Prioritised s
    → (s' : Scheduler) × (charge t ns s ≡ some s') × Inv s' × Prioritised s'
unfolding charge update
charge-Inv t ns s inv prio = elim (Bool-cases (leb (s.thread t).time_to_run ns)) [
  | inl used_up ↦
      let (s', done, moved) = reschedule-Inv s t inv prio in
      (s', rw (charge, used_up) done, moved.inv, moved.prioritised)
  | inr has_time ↦
      let th = s.thread t in
      let f = update s.thread t (record th { time_to_run = th.time_to_run - ns }) in
      (
        record s { thread = f },
        rw (charge, has_time) refl,
        λ u.
            (let kept : (f u).location ≡ (s.thread u).location = ground arith in
              rw kept (retag s f u (s.thread u).location (inv u))),
        λ u. (let (p, is, small) = prio u in (p, ground arith, small)),
      )
]

-- The thread at the head of the highest queue below `n` that is not empty.
pub record IsNext (n : ℕ) (s : Scheduler) (t : ℕ) : Type 0 where
  pub i : ℕ
  pub below : i < n
  pub rest : List ℕ
  pub head : s.running_tasks i ≡ t ∷ rest
  pub above : (j : ℕ) → i < j → j < n → s.running_tasks j ≡ []

abbrev pub Idle : ℕ → Scheduler → Type 0
Idle n s = (j : ℕ) → j < n → s.running_tasks j ≡ []

module _ (i : ℕ) (s : Scheduler) (empty : s.running_tasks i ≡ []) where
  empty_or : (j : ℕ) → j < suc i → (j < i → s.running_tasks j ≡ []) → s.running_tasks j ≡ []
  empty_or j l h = elim (Bool-cases (j == i)) [
    | inl same ↦ rw ((==_iff j i).0 same) empty
    | inr differs ↦ h (ground arith)
  ]

  Idle-raise : Idle i s → Idle (suc i) s
  Idle-raise idle j l = empty_or j l (idle j)

  IsNext-raise : (t : ℕ) → IsNext i s t → IsNext (suc i) s t
  IsNext-raise t next = record {
    i = next.i;
    below = let b = next.below in omega arith;
    rest = next.rest;
    head = next.head;
    above = λ j l m. empty_or j m (next.above j l);
  }

-- On a scheduler whose threads stand where their locations say and whose priorities name queues,
-- the search for the next thread succeeds. Either every queue below `n` is empty, and it finds
-- none and changes nothing, or it finds the thread at the head of the highest such queue that is
-- not empty, and the scheduler stays in order.
pub get_next-IsNext :
    (n ns : ℕ) (s : Scheduler)
    → Inv s
    → Prioritised s
    → ((get_next n ns s ≡ some (none, s)) × Idle n s)
      ⊎ ((t : ℕ) × (s' : Scheduler) × (get_next n ns s ≡ some (some t, s'))
          × IsNext n s t
          × Inv s'
          × Prioritised s')
unfolding get_next
get_next-IsNext zero ns s inv prio = inl (refl, λ j l. absurd (omega arith))
get_next-IsNext (suc i) ns s inv prio =
    let rest_case = get_next-IsNext i ns s inv prio in
    elim (queue_cases (s.running_tasks i)) [
      | inl empty ↦ elim rest_case [
        | inl (same, idle) ↦ inl (rw (get_next, empty) same, λ j. Idle-raise i s empty idle j)
        | inr (t, s', found, next, inv', prio') ↦
            inr (t, s', rw (get_next, empty) found, IsNext-raise i s empty t next, inv', prio')
      ]
      | inr (t, rest, head) ↦
          let (s', charged, inv', prio') = charge-Inv t ns s inv prio in
          inr (
            t,
            s',
            rw (get_next, head, charged) refl,
            record {
              i = i;
              below = omega arith;
              rest = rest;
              head = head;
              above = λ j l m. absurd (omega arith);
            },
            inv',
            prio',
          )
    ]
  where
    queue_cases : (q : List ℕ) → (q ≡ []) ⊎ ((t : ℕ) × (rest : List ℕ) × (q ≡ t ∷ rest))
    queue_cases [] = inl refl
    queue_cases (t ∷ rest) = inr (t, rest, refl)

switch_to_cases :
    (t : ℕ) (cur : Option ℕ)
    → ((cur ≡ some t) × (switch_to (some t) cur ≡ none))
      ⊎ ((cur ≢ some t) × (switch_to (some t) cur ≡ some t))
unfolding switch_to
switch_to_cases t none = inr (λ e. absurd (cc e), refl)
switch_to_cases t (some c) = elim (Bool-cases (t == c)) [
  | inl same ↦ inl (ground arith, rw (switch_to, same) refl)
  | inr differs ↦ inr (λ e. ground arith, rw (switch_to, differs) refl)
]

-- ScheduleNext succeeds on a scheduler whose threads stand where their locations say and whose
-- priorities name queues, and keeps it so. It switches to no thread when every queue is empty or
-- when the thread it finds runs already; otherwise it switches to the thread at the head of the
-- highest queue that is not empty.
pub schedule_next-highest :
    (ns : ℕ) (cur : Option ℕ) (s : Scheduler)
    → Inv s
    → Prioritised s
    → (chosen : Option ℕ) × (s' : Scheduler) × (schedule_next ns cur s ≡ some (chosen, s'))
      × Inv s'
      × Prioritised s'
      × (((chosen ≡ none) × Idle priorities s)
          ⊎ ((t : ℕ) × IsNext priorities s t
              × (((cur ≡ some t) × (chosen ≡ none)) ⊎ ((cur ≢ some t) × (chosen ≡ some t)))))
unfolding schedule_next
schedule_next-highest ns cur s inv prio = elim (get_next-IsNext priorities ns s inv prio) [
  | inl (same, idle) ↦ (none, s, rw (schedule_next, same) refl, inv, prio, inl (refl, idle))
  | inr (t, s', found, next, inv', prio') ↦ (
    switch_to (some t) cur,
    s',
    rw (schedule_next, found) refl,
    inv',
    prio',
    inr (t, next, switch_to_cases t cur),
  )
]
