-- ===== src/Scheduler/Invariant.antt =====
-- Every thread stands in exactly the queue that its location names (include/sys/sched.h).
use tysos_cxx.Prelude.{
  ℕ, ◌≤◌, ◌<◌, ◌≡◌, Bool, false, List, [], ◌∷◌, some, refl, ◌==◌, ◌==ℤ◌, ==_iff, if◌then◌else◌,
  arith, ℤ, pos, negsuc, Bool-cases, inl, inr, subst, sym, length,
}
use tysos_cxx.Containers.DeltaQueue.{Entry, absorb, remove_delta}
use tysos_cxx.Scheduler.{
  Thread, Scheduler, loc_sleeping, loc_blocking, loc_released, priorities, update, remove_first,
  set_location, unqueue, release,
}
use tysos_cxx.Scheduler.Queues.{count, items, count-remove_first, count-remove_delta}

abbrev pub once : Bool → ℕ
once b = if b then 1 else 0

-- The thread stands once in the queue that `loc` names and in no other.
pub record StandsAt (s : Scheduler) (t : ℕ) (loc : ℤ) : Type 0 where
  pub running : (p : ℕ) → count t (s.running_tasks p) ≡ once (loc ==ℤ pos p)
  pub sleeping : count t (items s.sleeping_tasks) ≡ once (loc ==ℤ loc_sleeping)
  pub blocking : count t s.blocking_tasks ≡ once (loc ==ℤ loc_blocking)
  pub in_range : (p : ℕ) → loc ≡ pos p → p < priorities

-- The thread stands at most once in the queue that `loc` names and in no other.
pub record MayStandAt (s : Scheduler) (t : ℕ) (loc : ℤ) : Type 0 where
  pub running : (p : ℕ) → count t (s.running_tasks p) ≤ once (loc ==ℤ pos p)
  pub sleeping : count t (items s.sleeping_tasks) ≤ once (loc ==ℤ loc_sleeping)
  pub blocking : count t s.blocking_tasks ≤ once (loc ==ℤ loc_blocking)
  pub in_range : (p : ℕ) → loc ≡ pos p → p < priorities

pub StandsAt-may : (s : Scheduler) (t : ℕ) (loc : ℤ) → StandsAt s t loc → MayStandAt s t loc
StandsAt-may s t loc at = record {
  running = λ p. (let x = at.running p in omega arith);
  sleeping = let x = at.sleeping in omega arith;
  blocking = let x = at.blocking in omega arith;
  in_range = at.in_range;
}

abbrev pub Inv : Scheduler → Type 0
Inv s = (t : ℕ) → StandsAt s t (s.thread t).location

-- The threads but `t` stand where their locations say.
abbrev pub OthersStand : Scheduler → ℕ → Type 0
OthersStand s t = (u : ℕ) → (u == t) ≡ false → StandsAt s u (s.thread u).location

-- The queue operation on `t` of a release: `t` stands nowhere, the other threads where they stood.
unqueue_self :
    (t : ℕ) (loc : ℤ) (s s' : Scheduler)
    → MayStandAt s t loc
    → unqueue t loc s ≡ some s'
    → StandsAt s' t loc_released
unfolding unqueue
unqueue_self t (pos p) s s' at h = record {
  running = λ q.
      let here = at.running p in
      let there = at.running q in
      let gone = count-remove_first t t (s.running_tasks p) in ground arith;
  sleeping = let x = at.sleeping in ground arith;
  blocking = let x = at.blocking in ground arith;
  in_range = λ q e. absurd (cc e);
}
unqueue_self t (negsuc k) s s' at h = record {
  running = λ q. let x = at.running q in ground arith;
  sleeping =
      let x = at.sleeping in let gone = count-remove_delta t t s.sleeping_tasks in ground arith;
  blocking =
      let x = at.blocking in let gone = count-remove_first t t s.blocking_tasks in ground arith;
  in_range = λ q e. absurd (cc e);
}

unqueue_other :
    (t u : ℕ) (loc other : ℤ) (s s' : Scheduler)
    → (u == t) ≡ false
    → StandsAt s u other
    → unqueue t loc s ≡ some s'
    → StandsAt s' u other
unfolding unqueue
unqueue_other t u (pos p) other s s' ne at h = record {
  running = λ q.
      let x = at.running q in let kept = count-remove_first u t (s.running_tasks p) in ground arith;
  sleeping = let x = at.sleeping in ground arith;
  blocking = let x = at.blocking in ground arith;
  in_range = at.in_range;
}
unqueue_other t u (negsuc k) other s s' ne at h = record {
  running = λ q. let x = at.running q in ground arith;
  sleeping =
      let x = at.sleeping in let kept = count-remove_delta u t s.sleeping_tasks in ground arith;
  blocking =
      let x = at.blocking in let kept = count-remove_first u t s.blocking_tasks in ground arith;
  in_range = at.in_range;
}

unqueue_total :
    (t : ℕ) (loc : ℤ) (s : Scheduler)
    → ((p : ℕ) → loc ≡ pos p → p < priorities)
    → (s' : Scheduler) × (unqueue t loc s ≡ some s') × (s'.thread ≡ s.thread)
unfolding unqueue
unqueue_total t (pos p) s r =
    let small = r p refl in
    (
      record s { running_tasks = update s.running_tasks p (remove_first t (s.running_tasks p)) },
      ground arith,
      refl,
    )
unqueue_total t (negsuc k) s r = (_, refl, ground arith)

-- What a release leaves: the thread is out of every queue, the others stand where they stood, and
-- no thread changes but in its location.
pub record Released (s s' : Scheduler) (t : ℕ) : Type 0 where
  pub out : StandsAt s' t loc_released
  pub says : (s'.thread t).location ≡ loc_released
  pub others : OthersStand s' t
  pub priority : (u : ℕ) → (s'.thread u).priority ≡ (s.thread u).priority
  pub slice : (u : ℕ) → (s'.thread u).default_slice ≡ (s.thread u).default_slice
  pub sleepers : length s'.sleeping_tasks ≤ length s.sleeping_tasks

remove_delta-length : (t : ℕ) (q : List Entry) → length (remove_delta t q) ≤ length q
unfolding remove_delta absorb
remove_delta-length t [] = omega arith
remove_delta-length t (c ∷ []) = ground arith
remove_delta-length t (c ∷ e ∷ rest) =
    let shorter = remove_delta-length t (e ∷ rest) in ground arith

unqueue-sleepers :
    (t : ℕ) (loc : ℤ) (s s' : Scheduler)
    → unqueue t loc s ≡ some s'
    → length s'.sleeping_tasks ≤ length s.sleeping_tasks
unfolding unqueue
unqueue-sleepers t (pos p) s s' h = ground arith
unqueue-sleepers t (negsuc k) s s' h =
    let shorter = remove_delta-length t s.sleeping_tasks in ground arith

-- A change of `t`'s thread record alone moves no thread between the queues.
pub retag :
    (s : Scheduler) (f : ℕ → Thread) (u : ℕ) (loc : ℤ)
    → StandsAt s u loc
    → StandsAt (record s { thread = f }) u loc
retag s f u loc at = record {
  running = at.running;
  sleeping = at.sleeping;
  blocking = at.blocking;
  in_range = at.in_range;
}

pub release-Released :
    (t : ℕ) (s : Scheduler)
    → MayStandAt s t (s.thread t).location
    → OthersStand s t
    → (s' : Scheduler) × (release t s ≡ some s') × Released s s' t
unfolding release set_location update
release-Released t s may others =
    let loc = (s.thread t).location in
    let (q, done, same) = unqueue_total t loc s may.in_range in
    let f = update q.thread t (record (q.thread t) { location = loc_released }) in
    (
      record q { thread = f },
      ground arith,
      record {
        out = retag q f t loc_released (unqueue_self t loc s q may done);
        says = ground arith;
        others = λ u ne.
            (let kept : (f u).location ≡ (s.thread u).location = ground arith in
              rw kept (
                retag q f u (s.thread u).location
                  (unqueue_other t u loc (s.thread u).location s q ne (others u ne) done)));
        priority = λ u. ground arith;
        slice = λ u. ground arith;
        sleepers = unqueue-sleepers t loc s q done;
      },
    )

-- With the thread back at a location where it stands, the invariant holds.
pub rejoin : (s : Scheduler) (t : ℕ) → OthersStand s t → StandsAt s t (s.thread t).location → Inv s
rejoin s t others at u = elim (Bool-cases (u == t)) [
  | inl same ↦ subst (λ x. StandsAt s x (s.thread x).location) (sym ((==_iff u t).0 same)) at
  | inr differs ↦ others u differs
]
