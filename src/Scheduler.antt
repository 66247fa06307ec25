-- ===== src/Scheduler.antt =====
-- class Scheduler (include/sys/sched.h) over the fields of class Thread (include/sys/task.h). The
-- queues hold references to threads; the threads themselves are in a store. `none` is an access
-- outside of `running_tasks`. Locks are left out: each operation runs as a whole.
pub mod Queues
pub mod Invariant
pub mod Moves
pub mod Next
pub mod Tick
pub mod Calls
use tysos_cxx.Prelude.{
  ℕ, zero, suc, ◌-◌, ◌%◌, ◌^◌, Bool, true, false, not, ◌&&◌, List, [], ◌∷◌, ◌++◌, Option, none,
  some, ltb, leb, ◌==◌, if◌then◌else◌, ℤ, pos, negsuc, length,
}
use tysos_cxx.Containers.DeltaQueue.{
  Entry, remove_delta, insert_at_delta, get_zero, decrease_delta, sub64,
}

-- LOC_CURRENT, LOC_SLEEPING, LOC_BLOCKING and LOC_RELEASED, which are -1 to -4.
abbrev pub loc_current : ℤ
loc_current = negsuc 0

abbrev pub loc_sleeping : ℤ
loc_sleeping = negsuc 1

abbrev pub loc_blocking : ℤ
loc_blocking = negsuc 2

abbrev pub loc_released : ℤ
loc_released = negsuc 3

-- DEF_PRIORITIES
abbrev pub priorities : ℕ
priorities = 11

-- The fields of Thread that the scheduler uses. A location that is not negative is the index of a
-- running queue.
pub record Thread : Type 0 where
  pub time_to_run : ℕ
  pub priority : ℤ
  pub default_slice : ℕ
  pub location : ℤ

pub record Scheduler : Type 0 where
  pub thread : ℕ → Thread
  pub running_tasks : ℕ → List ℕ
  pub sleeping_tasks : List Entry
  pub blocking_tasks : List ℕ

unfoldable pub update {ℓ} : {A : Type ℓ} → (ℕ → A) → ℕ → A → ℕ → A
update f k v j = if j == k then v else f j

-- LinkedList::Remove on the sequence of the items.
unfoldable pub remove_first : ℕ → List ℕ → List ℕ
remove_first t [] = []
remove_first t (x ∷ rest) = if x == t then rest else x ∷ remove_first t rest

unfoldable pub set_location : ℕ → ℤ → Scheduler → Scheduler
unfolding update
set_location t loc s = record s {
  thread = update s.thread t (record (s.thread t) { location = loc });
}

-- The queue that the location names loses the thread.
unfoldable pub unqueue : ℕ → ℤ → Scheduler → Option Scheduler
unfolding update remove_first
unqueue t (pos p) s =
    if ltb p priorities
    then some
        (record s { running_tasks = update s.running_tasks p (remove_first t (s.running_tasks p)) })
    else none
unqueue t (negsuc k) s = some (
    if k == 1
    then record s { sleeping_tasks = remove_delta t s.sleeping_tasks }
    else if k == 2
    then record s { blocking_tasks = remove_first t s.blocking_tasks }
    else s)

-- Scheduler::_Release, also Deschedule.
unfoldable pub release : ℕ → Scheduler → Option Scheduler
unfolding unqueue set_location
release t s = elim (unqueue t (s.thread t).location s) [
  | none ↦ none
  | some s' ↦ some (set_location t loc_released s')
]

unfoldable pub enqueue : ℕ → ℤ → Scheduler → Option Scheduler
unfolding update
enqueue t (negsuc k) s = none
enqueue t (pos p) s =
    if ltb p priorities
    then (let th = s.thread t in
        some (record s {
          thread =
              update s.thread t (record th { location = pos p; time_to_run = th.default_slice });
          running_tasks = update s.running_tasks p (s.running_tasks p ++ t ∷ []);
        }))
    else none

-- Scheduler::_Reschedule, also Reschedule.
unfoldable pub reschedule : ℕ → Scheduler → Option Scheduler
unfolding release enqueue
reschedule t s = elim (release t s) [ none ↦ none | some s' ↦ enqueue t (s'.thread t).priority s' ]

-- Scheduler::Block
unfoldable pub block : ℕ → Scheduler → Option Scheduler
unfolding release set_location
block t s = elim (release t s) [
  | none ↦ none
  | some s' ↦
      let s'' = set_location t loc_blocking s' in
      some (record s'' { blocking_tasks = s''.blocking_tasks ++ t ∷ [] })
]

-- Scheduler::Sleep
unfoldable pub sleep : ℕ → ℕ → Scheduler → Option Scheduler
unfolding release set_location
sleep t ns s = elim (release t s) [
  | none ↦ none
  | some s' ↦
      let s'' = set_location t loc_sleeping s' in
      some (record s'' { sleeping_tasks = insert_at_delta t ns s''.sleeping_tasks })
]

-- Scheduler::_GetNextThread for the thread that it found.
unfoldable pub charge : ℕ → ℕ → Scheduler → Option Scheduler
unfolding reschedule update
charge t ns s =
    let th = s.thread t in
    if leb th.time_to_run ns
    then reschedule t s
    else some
        (record s { thread = update s.thread t (record th { time_to_run = th.time_to_run - ns }) })

-- The loop of _GetNextThread over the queues below `i`: the thread found, and the new state.
unfoldable pub get_next : ℕ → ℕ → Scheduler → Option (Option ℕ × Scheduler)
unfolding charge
get_next zero ns s = some (none, s)
get_next (suc i) ns s = elim (s.running_tasks i) [
  | [] ↦ get_next i ns s
  | t ∷ _ ↦ elim (charge t ns s) [ none ↦ none | some s' ↦ some (some t, s') ]
]

unfoldable pub switch_to : Option ℕ → Option ℕ → Option ℕ
switch_to none cur = none
switch_to (some t) none = some t
switch_to (some t) (some c) = if t == c then none else some t

-- Scheduler::ScheduleNext: the thread that it switches to, if any. `cur` is none before the first
-- switch.
unfoldable pub schedule_next : ℕ → Option ℕ → Scheduler → Option (Option ℕ × Scheduler)
unfolding get_next switch_to
schedule_next ns cur s = elim (get_next priorities ns s) [
  | none ↦ none
  | some (next, s') ↦ some (switch_to next cur, s')
]

-- The loop of TimerTick: each round takes one thread out of the sleeping queue.
unfoldable pub wake : ℕ → Scheduler → Option Scheduler
unfolding reschedule
wake zero s = none
wake (suc fuel) s = elim (get_zero s.sleeping_tasks) [
  | none ↦ some s
  | some (t, rest) ↦ elim (reschedule t (record s { sleeping_tasks = rest })) [
    | none ↦ none
    | some s' ↦ wake fuel s'
  ]
]

-- Scheduler::TimerTick
unfoldable pub timer_tick : ℕ → Option ℕ → Scheduler → Option (Option ℕ × Scheduler)
unfolding wake schedule_next
timer_tick ns cur s =
    let q = (decrease_delta ns s.sleeping_tasks).1 in
    elim (wake (suc (length q)) (record s { sleeping_tasks = q })) [
      | none ↦ none
      | some s' ↦ schedule_next ns cur s'
    ]
