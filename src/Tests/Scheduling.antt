-- ===== src/Tests/Scheduling.antt =====
-- include/sys/sched.h on two threads, one in a running queue and one asleep.
use tysos_cxx.Prelude.{
  ℕ, List, [], ◌∷◌, Option, none, some, ◌≡◌, ◌≢◌, ◌⊎◌, arith, ◌==◌, if◌then◌else◌, pos,
}
use tysos_cxx.Containers.DeltaQueue.{entry, get_zero}
use tysos_cxx.Scheduler.{
  Thread, Scheduler, loc_sleeping, loc_blocking, loc_released, priorities, reschedule, block, sleep,
  schedule_next, wake, timer_tick,
}
use tysos_cxx.Scheduler.Queues.{count}
use tysos_cxx.Scheduler.Invariant.{Inv}
use tysos_cxx.Scheduler.Moves.{Prioritised, Moved, reschedule-Inv, block-Inv, sleep-Inv}
use tysos_cxx.Scheduler.Calls.{
  Call, deschedules, blocks, sleeps, ticks, Running, calls, InOrder, calls-InOrder,
}
use tysos_cxx.Scheduler.Next.{IsNext, Idle, schedule_next-highest}
use tysos_cxx.Scheduler.Tick.{wake-total, timer_tick-Inv}

-- Thread 1 is ready at priority 3, thread 2 sleeps, and every other thread is released.
abbrev ready : Thread
ready = record { time_to_run = 10; priority = pos 3; default_slice = 50; location = pos 3 }

abbrev threads : ℕ → Thread
threads t =
    if t == 1
    then ready
    else if t == 2
    then record ready { location = loc_sleeping }
    else record ready { location = loc_released }

abbrev pub sched : Scheduler
sched = record {
  thread = threads;
  running_tasks = λ p. if p == 3 then 1 ∷ [] else [];
  sleeping_tasks = entry 2 0 ∷ [];
  blocking_tasks = [];
}

pub sched-Inv : Inv sched
unfolding count
sched-Inv t = record {
  running = λ p. ground arith;
  sleeping = ground arith;
  blocking = ground arith;
  in_range = λ p h. ground arith;
}

pub sched-Prioritised : Prioritised sched
sched-Prioritised t = (3, ground arith, omega arith)

test-reschedule : (s' : Scheduler) × (reschedule 2 sched ≡ some s') × Moved s' 2 (pos 3) 1
test-reschedule = reschedule-Inv sched 2 sched-Inv sched-Prioritised

test-block : (s' : Scheduler) × (block 1 sched ≡ some s') × Moved s' 1 loc_blocking 1
test-block = block-Inv sched 1 sched-Inv sched-Prioritised

test-sleep : (s' : Scheduler) × (sleep 1 700 sched ≡ some s') × Moved s' 1 loc_sleeping 2
test-sleep = sleep-Inv sched 1 sched-Inv sched-Prioritised 700

schedule_next-highest_example :
    (chosen : Option ℕ) × (s' : Scheduler) × (schedule_next 20 none sched ≡ some (chosen, s'))
    × Inv s'
    × Prioritised s'
    × (((chosen ≡ none) × Idle priorities sched)
        ⊎ ((t : ℕ) × IsNext priorities sched t
            × (((none ≡ some t) × (chosen ≡ none)) ⊎ ((none ≢ some t) × (chosen ≡ some t)))))
schedule_next-highest_example = schedule_next-highest 20 none sched sched-Inv sched-Prioritised

test-wake :
    (s' : Scheduler) × (wake 2 sched ≡ some s')
    × Inv s'
    × Prioritised s'
    × (get_zero s'.sleeping_tasks ≡ none)
test-wake = wake-total 2 sched (omega arith) sched-Inv sched-Prioritised

test-timer_tick :
    (chosen : Option ℕ) × (s' : Scheduler) × (timer_tick 20 (some 1) sched ≡ some (chosen, s'))
    × Inv s'
    × Prioritised s'
test-timer_tick = timer_tick-Inv 20 (some 1) sched sched-Inv sched-Prioritised

-- A tick switches to thread 1, which goes to sleep; thread 2 blocks and is released.
abbrev session : List Call
session = ticks 20 ∷ sleeps 1 30 ∷ blocks 2 ∷ deschedules 2 ∷ ticks 40 ∷ []

abbrev boot : Running
boot = record { scheduler = sched; current = none }

calls-InOrder_example : (r : Running) × (calls session boot ≡ some r) × InOrder r.scheduler
calls-InOrder_example =
    calls-InOrder session boot (record { inv = sched-Inv; prioritised = sched-Prioritised })
