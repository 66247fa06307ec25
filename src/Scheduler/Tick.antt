-- ===== src/Scheduler/Tick.antt =====
-- TimerTick (include/sys/sched.h): the sleepers whose time has come are rescheduled.
use tysos_cxx.Prelude.{
  ℕ, zero, suc, ◌≤◌, ◌<◌, ◌≡◌, List, [], ◌∷◌, Option, none, some, refl, arith, inl, inr, ◌⊎◌,
  length, ◌∙◌, ap,
}
use tysos_cxx.Containers.DeltaQueue.{Entry, absorb, get_zero, decrease_delta}
use tysos_cxx.Scheduler.{Scheduler, wake, timer_tick}
use tysos_cxx.Scheduler.Queues.{count, items, items-get_zero, items-decrease_delta}
use tysos_cxx.Scheduler.Invariant.{MayStandAt, Inv, OthersStand}
use tysos_cxx.Scheduler.Moves.{Prioritised, reschedule-Moved}
use tysos_cxx.Scheduler.Next.{schedule_next-highest}

-- Another sleeping queue with the same items.
same_sleepers :
    (s : Scheduler) (q : List Entry)
    → items q ≡ items s.sleeping_tasks
    → Inv s
    → Inv (record s { sleeping_tasks = q })
same_sleepers s q same inv u =
    let at = inv u in
    record {
      running = at.running;
      sleeping = ap (count u) same ∙ at.sleeping;
      blocking = at.blocking;
      in_range = at.in_range;
    }

-- GetZero takes its thread out of the sleeping queue; the thread's location is still LOC_SLEEPING.
module _ (s : Scheduler) (inv : Inv s) (t : ℕ) (rest : List Entry)
    (taken : get_zero s.sleeping_tasks ≡ some (t, rest)) where
  left : Scheduler
  left = record s { sleeping_tasks = rest }

  taken-MayStandAt : MayStandAt left t (s.thread t).location
  unfolding left count
  taken-MayStandAt =
      let at = inv t in
      let first = items-get_zero s.sleeping_tasks rest t taken in
      record {
        running = λ p. (let x = at.running p in omega arith);
        sleeping = let x = at.sleeping in ground arith;
        blocking = let x = at.blocking in omega arith;
        in_range = at.in_range;
      }

  taken-OthersStand : OthersStand left t
  unfolding left count
  taken-OthersStand u ne =
      let at = inv u in
      let first = items-get_zero s.sleeping_tasks rest t taken in
      record {
        running = at.running;
        sleeping = let x = at.sleeping in ground arith;
        blocking = at.blocking;
        in_range = at.in_range;
      }

get_zero-length :
    (q rest : List Entry) (t : ℕ) → get_zero q ≡ some (t, rest) → suc (length rest) ≡ length q
unfolding get_zero absorb
get_zero-length [] rest t h = absurd (cc h)
get_zero-length (c ∷ []) rest t h = ground arith
get_zero-length (c ∷ e ∷ q) rest t h = ground arith

-- The loop of TimerTick ends: with more rounds than threads sleep, it succeeds on a scheduler
-- whose threads stand where their locations say and whose priorities name queues, keeps it so, and
-- leaves no thread at the head of the sleeping queue whose time has come.
pub wake-total :
    (fuel : ℕ) (s : Scheduler)
    → length s.sleeping_tasks < fuel
    → Inv s
    → Prioritised s
    → (s' : Scheduler) × (wake fuel s ≡ some s')
      × Inv s'
      × Prioritised s'
      × (get_zero s'.sleeping_tasks ≡ none)
unfolding wake left
wake-total zero s l inv prio = absurd (omega arith)
wake-total (suc fuel) s l inv prio = elim (head_cases (get_zero s.sleeping_tasks)) [
  | inl nobody ↦ (s, rw (wake, nobody) refl, inv, prio, nobody)
  | inr (t, rest, taken) ↦
      let fewer = get_zero-length s.sleeping_tasks rest t taken in
      let (s1, done, moved) =
        reschedule-Moved t (left s inv t rest taken) (taken-MayStandAt s inv t rest taken)
          (taken-OthersStand s inv t rest taken) prio in
      let shorter : length s1.sleeping_tasks ≤ length rest = moved.sleepers in
      let (s', ended, inv', prio', awake) =
        wake-total fuel s1 (omega arith) moved.inv moved.prioritised in
      (s', rw (wake, taken, done) ended, inv', prio', awake)
]
  where
    head_cases :
        (r : Option (ℕ × List Entry))
        → (r ≡ none) ⊎ ((t : ℕ) × (rest : List Entry) × (r ≡ some (t, rest)))
    head_cases none = inl refl
    head_cases (some (t, rest)) = inr (t, rest, refl)

-- TimerTick ends and succeeds on a scheduler whose threads stand where their locations say and
-- whose priorities name queues, and keeps it so.
pub timer_tick-Inv :
    (ns : ℕ) (cur : Option ℕ) (s : Scheduler)
    → Inv s
    → Prioritised s
    → (chosen : Option ℕ) × (s' : Scheduler) × (timer_tick ns cur s ≡ some (chosen, s'))
      × Inv s'
      × Prioritised s'
unfolding timer_tick
timer_tick-Inv ns cur s inv prio =
    let q = (decrease_delta ns s.sleeping_tasks).1 in
    let s0 : Scheduler = record s { sleeping_tasks = q } in
    let same = items-decrease_delta ns s.sleeping_tasks in
    let (s1, woken, inv1, prio1, awake) =
      wake-total (suc (length q)) s0 (omega arith) (same_sleepers s q same inv) prio in
    let (chosen, s2, chose, inv2, prio2, highest) = schedule_next-highest ns cur s1 inv1 prio1 in
    (chosen, s2, rw (timer_tick, woken) chose, inv2, prio2)
